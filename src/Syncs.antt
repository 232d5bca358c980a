-- ===== src/Syncs.antt =====
-- internal/controller/syncsnapshot_controller.go: RestorePvcs whose PVC is gone from the shoot are
-- deleted, the others and the Pvcs of the namespace are marked for another round.
pub mod Objects
pub mod Snapshots
pub mod Phases
pub mod Reconcile
pub mod MarkLaws
pub mod LostLaws
