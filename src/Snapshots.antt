-- ===== src/Snapshots.antt =====
-- internal/controller/snapshot_controller.go: a Snapshot in the seed and its VolumeSnapshot in the
-- shoot.
pub mod Status
pub mod Create
pub mod Outcome
pub mod Delete
pub mod Reconcile
pub mod CreateLaws
pub mod DeleteLaws
pub mod RetryLaws
pub mod OnceLaws
