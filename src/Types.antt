-- ===== src/Types.antt =====
-- The objects that the controllers read and write: the custom resources of api/v1beta1, and the
-- parts of the Kubernetes objects that internal/controller touches.
pub mod Meta
pub mod Snapshot
pub mod Kube
pub mod Restore
pub mod Scheduler
pub mod Lists
pub mod Json
