-- ===== src/Utils.antt =====
-- The helpers that the controllers share: internal/controller/utils.go, utils_pods.go,
-- utils_resources.go and const.go.
pub mod Const
pub mod Lists
pub mod Strings
pub mod Decimal
pub mod Kubeconfig
pub mod Clients
pub mod Sort
pub mod SortLaws
pub mod Shoot
pub mod Cron
pub mod Resources
pub mod Validation
pub mod VolumeSnapshots
pub mod Pods
