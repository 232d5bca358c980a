-- ===== src/Restores.antt =====
-- internal/controller/restorepvc_controller.go: a PVC restored in the shoot from a snapshot, and the
-- count of the uses of the snapshot.
pub mod InUse
pub mod Claim
pub mod Restore
pub mod Outcome
pub mod Reconcile
pub mod UseLaws
pub mod Ledger
pub mod CountLaws
pub mod ClaimLaws
