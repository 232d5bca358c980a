-- ===== src/KubeSnapshot.antt =====
-- internal/controller/createkubesnapshot_controller.go: the backup of a shoot's resources by a
-- kube-dump pod.
pub mod Pod
pub mod Status
pub mod Node
pub mod Cleanup
pub mod Backup
pub mod Reconcile
pub mod Counter
pub mod Requests
pub mod Deletion
pub mod Nomination
