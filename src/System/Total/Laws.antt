-- ===== src/System/Total/Laws.antt =====
-- When a round of each controller returns.
use backup_restore_openstack.Prelude.{List, ◌≡◌}
use backup_restore_openstack.Types.Meta.{NamespacedName}
use backup_restore_openstack.Types.Scheduler.{SchedulerSnapshot}
use backup_restore_openstack.Effects.{Kind, Request, update_status, ok, Env, done, Reconciled}
use backup_restore_openstack.KubeSnapshot.Reconcile as KubeReconcile
use backup_restore_openstack.Command.Main.{Controller}
use backup_restore_openstack.System.{reconcile}
use backup_restore_openstack.System.Total.{HasCluster, AllRead, total-result}
use backup_restore_openstack.System.Total.Shoot.{AreListed, AreFound, AreClassed}
use backup_restore_openstack.System.Total.Snapshot
use backup_restore_openstack.System.Total.Kube
use backup_restore_openstack.System.Total.Restore
use backup_restore_openstack.System.Total.Restore.{Fits}
use backup_restore_openstack.System.Total.Sync
use backup_restore_openstack.System.Total.Pvc
use backup_restore_openstack.System.Total.PvSnapshot
use backup_restore_openstack.System.Total.Scheduler
use backup_restore_openstack.System.Total.Scheduler.{IsRunnable}

pub reconcile-Returns :
    (env : Env) (req : NamespacedName) (t : List Request)
    → (r : Reconciled) × ((KubeReconcile.reconcile req env t).0 ≡ done r)
reconcile-Returns env req t = total-result env _ (Kube.reconcile-IsTotal env req) t

-- A world without what the program panics or loops on: objects whose namespace is too short to hold the
-- cluster's name, storage that is no quantity, PVCs without a storage class, a shoot whose namespaces
-- or VolumeSnapshots cannot be listed, and schedules that are refused or come to an end.
pub record IsSound (env : Env) : Type 0 where
  pub restores : AllRead env Kind.restore_pvc (Fits env)
  pub syncs : AllRead env Kind.sync_snapshot (λ o. HasCluster o.meta)
  pub pvcs : AllRead env Kind.pvc (λ o. HasCluster o.meta)
  pub pv_snapshots : AllRead env Kind.pv_snapshot (λ o. HasCluster o.meta)
  pub schedulers : AllRead env Kind.scheduler_snapshot (IsRunnable env)
  pub written_schedulers :
      (t : List Request) (o p : SchedulerSnapshot)
      → env.answer t (update_status Kind.scheduler_snapshot o) ≡ ok p
      → IsRunnable env p
  pub namespaces : AreListed env
  pub volume_snapshots : AreFound env
  pub classes : AreClassed env

-- In a world without what the program panics or loops on (short namespaces, storage that is no quantity,
-- PVCs without a storage class, a shoot whose namespaces or VolumeSnapshots cannot be listed, schedules
-- that are refused or end), every round of each of the seven controllers returns, whatever else the API servers answer.
pub rounds-Return :
    (env : Env) (sound : IsSound env) (c : Controller) (req : NamespacedName) (t : List Request)
    → (r : Reconciled) × ((reconcile c req env t).0 ≡ done r)
unfolding reconcile
rounds-Return env sound Controller.pv_snapshot_reconciler req t =
    total-result env _ (PvSnapshot.reconcile-IsTotal env sound.namespaces sound.pv_snapshots req) t
rounds-Return env sound Controller.pvc_reconciler req t =
    total-result env _ (Pvc.reconcile-IsTotal env sound.namespaces sound.classes sound.pvcs req) t
rounds-Return env sound Controller.restore_pvc_reconciler req t =
    total-result env _ (Restore.reconcile-IsTotal env sound.restores req) t
rounds-Return env sound Controller.create_snapshot_reconciler req t =
    total-result env _ (Snapshot.reconcile-IsTotal env sound.volume_snapshots req) t
rounds-Return env sound Controller.scheduler_snapshot_reconciler req t =
    total-result env _
      (Scheduler.reconcile-IsTotal env sound.namespaces sound.classes sound.schedulers
        sound.written_schedulers req)
      t
rounds-Return env sound Controller.sync_snapshot_reconciler req t =
    total-result env _ (Sync.reconcile-IsTotal env sound.syncs req) t
rounds-Return env sound Controller.create_kube_snapshot_reconciler req t =
    reconcile-Returns env req t
