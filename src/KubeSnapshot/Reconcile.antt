-- ===== src/KubeSnapshot/Reconcile.antt =====
-- createkubesnapshot_controller.go, Reconcile.
use backup_restore_openstack.Prelude.{none, some, [], ◌∷◌, concat, if◌then◌else◌}
use backup_restore_openstack.Types.Meta.{NamespacedName, is_not_found, is_zero, wrapped}
use backup_restore_openstack.Types.Kube.{CreateKubeSnapshot}
use backup_restore_openstack.Effects.{
  Kind, get, update, Env, M, pure, asks, check, call, ◌>>=◌, Reconciled, no_requeue, requeue_now,
}
use backup_restore_openstack.Utils.Const.{snapshot_finalizer_name}
use backup_restore_openstack.KubeSnapshot.Cleanup.{cleanup}
use backup_restore_openstack.KubeSnapshot.Backup.{do_backup}

abbrev with_finalizer : Env → CreateKubeSnapshot → CreateKubeSnapshot
with_finalizer env create = record create {
  meta = record create.meta {
    finalizers = env.add_finalizer create.meta.finalizers snapshot_finalizer_name;
  };
}

unfoldable pub ensure_finalizer : CreateKubeSnapshot → M Reconciled
ensure_finalizer create = do
  changed ← asks (λ env. with_finalizer env create)
  updated ← call (update Kind.create_kube_snapshot changed)
  check updated (λ e. pure (no_requeue, some e)) (λ _. pure (requeue_now, none))

unfoldable pub reconcile_object : CreateKubeSnapshot → M Reconciled
unfolding ensure_finalizer do_backup cleanup
reconcile_object create = do
  held ← asks (λ env. env.contains_finalizer create.meta.finalizers snapshot_finalizer_name)
  if held
      then (if is_zero create.meta.deletion_timestamp then do_backup create else cleanup create)
      else ensure_finalizer create

unfoldable pub reconcile : NamespacedName → M Reconciled
unfolding reconcile_object
reconcile req = do
  got ← call (get Kind.create_kube_snapshot req)
  check got
      (λ e.
        if is_not_found e
        then pure (no_requeue, none)
        else pure (
          no_requeue,
          some (wrapped e (concat ("error retrieving object from store: " ∷ e.message ∷ []))),
        ))
      reconcile_object
