-- ===== src/Listings.antt =====
-- internal/controller/pvc_controller.go and pvsnapshot_controller.go: what a shoot holds, listed in the
-- status of a resource of the seed.
pub mod PvcList
pub mod PvcReconcile
pub mod PvSnapshotList
pub mod PvSnapshotReconcile
pub mod ListLaws
