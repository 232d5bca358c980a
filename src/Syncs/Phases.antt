-- ===== src/Syncs/Phases.antt =====
-- syncsnapshot_controller.go: ReconcileSyncRestore, ReconcilePvc and removeSyncAnnotation.
use backup_restore_openstack.Prelude.{
  Bool, Option, none, some, List, [], ◌∷◌, concat, if◌then◌else◌,
}
use backup_restore_openstack.Types.Meta.{Error, plain, is_set, delete}
use backup_restore_openstack.Types.Restore.{RestorePvc}
use backup_restore_openstack.Types.Lists.{Pvc, SyncSnapshot}
use backup_restore_openstack.Effects.{Kind, connect, M, pure, check, unless, call, save, ◌>>=◌}
use backup_restore_openstack.Utils.Const.{
  sync_snapshot_reconciler_annotation, pvc_reconcile_annotation, restore_pvc_enabled_annotation,
}
use backup_restore_openstack.Utils.Strings.{slice_from}
use backup_restore_openstack.Utils.Kubeconfig.{get_secret_shoot_integrated_kubeconfig}
use backup_restore_openstack.Utils.Shoot.{deref}
use backup_restore_openstack.Syncs.Objects.{
  check_restore_pvc_in_shoot, get_seed_restored_pvc_list, get_pvc_list, reconcile_pvc_list,
  reconcile_restored_pvc, delete_restored_pvc,
}

-- one RestorePvc: marked if its PVC is in the shoot, and else deleted
unfoldable pub sync_restore : RestorePvc → Bool → M (Option Error)
sync_restore r existed =
    if existed
    then reconcile_restored_pvc r restore_pvc_enabled_annotation "true"
    else delete_restored_pvc r

-- the first error ends the loop
unfoldable pub sync_restores : List RestorePvc → M (Option Error)
unfolding sync_restore
sync_restores [] = pure none
sync_restores (r ∷ rs) = do
  existed ← check_restore_pvc_in_shoot r
  check existed (λ e. pure (some e))
      λ there. do
        failed ← sync_restore r there
        unless failed (λ e. pure (some e)) (sync_restores rs)

-- namespace[4:] panics on a shorter name
unfoldable pub reconcile_sync_restore : SyncSnapshot → M (Option Error)
unfolding sync_restores
reconcile_sync_restore o = deref (slice_from o.meta.namespace 4) λ cluster_name. do
  kubeconfig ← get_secret_shoot_integrated_kubeconfig o.meta.namespace
  check kubeconfig
      (λ e. pure (
        some (
          plain (
            concat (
              "unable to get shoot secret data kubeconfig in ns " ∷ cluster_name ∷ ": " ∷ e.message
              ∷ [])))))
      λ config. do
        connected ← call (connect config cluster_name)
        check connected
            (λ e. pure (
              some (
                plain (
                  concat (
                    "unable to create shoot client set " ∷ cluster_name ∷ ": " ∷ e.message ∷ [])))))
            λ _. do restores ← get_seed_restored_pvc_list o.meta.namespace; sync_restores restores

unfoldable pub sync_pvcs : List Pvc → M (Option Error)
sync_pvcs [] = pure none
sync_pvcs (p ∷ ps) = do
  failed ← reconcile_pvc_list p pvc_reconcile_annotation "true"
  unless failed (λ e. pure (some e)) (sync_pvcs ps)

unfoldable pub reconcile_pvc : SyncSnapshot → M (Option Error)
unfolding sync_pvcs
reconcile_pvc o = do pvcs ← get_pvc_list o.meta.namespace; sync_pvcs pvcs

-- the object after the call, and the error of its update
unfoldable pub remove_sync_annotation : SyncSnapshot → M (SyncSnapshot × Option Error)
remove_sync_annotation o =
    if is_set o.meta.annotations sync_snapshot_reconciler_annotation
    then save Kind.sync_snapshot (record o {
      meta = record o.meta {
        annotations = delete o.meta.annotations sync_snapshot_reconciler_annotation;
      };
    })
    else pure (o, none)
