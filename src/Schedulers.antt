-- ===== src/Schedulers.antt =====
-- internal/controller/schedulersnapshot_controller.go: snapshots taken on a schedule, and those past
-- their time deleted.
pub mod Objects
pub mod Retention
pub mod Rounds
pub mod Reconcile
pub mod RetentionLaws
pub mod RoundLaws
pub mod CreationLaws
pub mod InvalidLaws
pub mod TargetLaws
pub mod TargetView
