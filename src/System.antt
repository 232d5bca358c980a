-- ===== src/System.antt =====
-- cmd/main.go and the controllers together: the manager gives each object that a controller watches to
-- the controller's Reconcile.
pub mod Frame
pub mod Shoot
pub mod PvcFrame
pub mod PvSnapshotFrame
pub mod SyncFrame
pub mod SchedulerPhases
pub mod SchedulerFrame
pub mod KubeFrame
pub mod SnapshotFrame
pub mod SnapshotLive
pub mod SnapshotRounds
pub mod Total
pub mod Laws
use backup_restore_openstack.Prelude.{List, [], ◌∷◌}
use backup_restore_openstack.Types.Meta.{NamespacedName}
use backup_restore_openstack.Effects.{Request, Env, M, Reconciled}
use backup_restore_openstack.Command.Main.{Controller}
use backup_restore_openstack.Listings.PvSnapshotReconcile
use backup_restore_openstack.Listings.PvcReconcile
use backup_restore_openstack.Restores.Reconcile as RestoreReconcile
use backup_restore_openstack.Snapshots.Reconcile as SnapshotReconcile
use backup_restore_openstack.Schedulers.Reconcile as SchedulerReconcile
use backup_restore_openstack.Syncs.Reconcile as SyncReconcile
use backup_restore_openstack.KubeSnapshot.Reconcile as KubeReconcile

-- Complete(r): the Reconcile of the controller that is registered
unfoldable pub reconcile : Controller → NamespacedName → M Reconciled
reconcile Controller.pv_snapshot_reconciler = PvSnapshotReconcile.reconcile
reconcile Controller.pvc_reconciler = PvcReconcile.reconcile
reconcile Controller.restore_pvc_reconciler = RestoreReconcile.reconcile
reconcile Controller.create_snapshot_reconciler = SnapshotReconcile.reconcile
reconcile Controller.scheduler_snapshot_reconciler = SchedulerReconcile.reconcile
reconcile Controller.sync_snapshot_reconciler = SyncReconcile.reconcile
reconcile Controller.create_kube_snapshot_reconciler = KubeReconcile.reconcile

-- The trace after rounds of the controllers for the objects that their queues name, one after another;
-- a round that panics is caught by the manager, which goes on with the next.
abbrev pub rounds : Env → List (Controller × NamespacedName) → List Request → List Request
rounds env [] t = t
rounds env ((c, req) ∷ work) t = rounds env work (reconcile c req env t).1
