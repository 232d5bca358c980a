-- ===== src/Snapshots/Delete.antt =====
-- snapshot_controller.go: DeleteSnapshot, deleteSnapshot, removeFinalizerAndUpdate and
-- deleteSnapshotWithFinalizer.
use backup_restore_openstack.Prelude.{
  String, ◌==◌, Bool, ◌&&◌, Option, none, some, List, [], ◌∷◌, concat, if◌then◌else◌,
}
use backup_restore_openstack.Types.Meta.{Error, ObjectMeta, plain}
use backup_restore_openstack.Types.Snapshot.{Snapshot, PvSnapshotItem}
use backup_restore_openstack.Effects.{
  Kind, connect_dynamic, dynamic_delete, M, pure, check, unless, call, save, drop_finalizer, ◌>>=◌,
  Reconciled, no_requeue, requeue_now,
}
use backup_restore_openstack.Utils.Const.{volume_snapshot, snapshot_finalizer_name}
use backup_restore_openstack.Utils.Strings.{trim_prefix}
use backup_restore_openstack.Utils.Kubeconfig.{get_secret_shoot_integrated_kubeconfig}
use backup_restore_openstack.Utils.VolumeSnapshots.{get_pv_snapshot_list_per_namespace}

unfoldable pub delete_snapshot : String → String → M (Option Error)
delete_snapshot name namespace = do
  deleted ← call (dynamic_delete volume_snapshot namespace name)
  check deleted (λ e. pure (some e)) (λ _. pure none)

abbrev pub is_of : Snapshot → PvSnapshotItem → Bool
is_of s i = i.snapshot_name == s.meta.name && i.namespace == s.spec.namespace

-- the loop over the listed items
unfoldable pub delete_listed : Snapshot → List PvSnapshotItem → M (Option Error)
unfolding delete_snapshot
delete_listed s [] = pure none
delete_listed s (i ∷ is) =
    if is_of s i
    then (do
      failed ← delete_snapshot s.meta.name s.spec.namespace
      unless failed (λ e. pure (some e)) (delete_listed s is))
    else delete_listed s is

-- DeleteSnapshot; a listing that fails leaves nothing to delete, and its error is returned
unfoldable pub delete_shoot_snapshot : Snapshot → M (Option Error)
unfolding delete_listed
delete_shoot_snapshot s = do
  let cluster_name = trim_prefix s.meta.namespace "fke-"
  kubeconfig ← get_secret_shoot_integrated_kubeconfig s.meta.namespace
  check kubeconfig
      (λ e. pure (
        some (
          plain (
            concat (
              "unable to get shoot secret data kubeconfig in ns " ∷ cluster_name ∷ ": " ∷ e.message
              ∷ [])))))
      λ config. do
        connected ← call (connect_dynamic config cluster_name)
        check connected
            (λ e. pure (
              some (
                plain (
                  concat (
                    "unable to create dynamic shoot client set " ∷ cluster_name ∷ ": " ∷ e.message
                    ∷ [])))))
            λ _. do
              listed ← get_pv_snapshot_list_per_namespace s.spec.namespace
              check listed (λ e. pure (some e)) (delete_listed s)

abbrev with_meta : Snapshot → ObjectMeta → Snapshot
with_meta s m = record s { meta = m }

unfoldable pub save_released : Snapshot → M Reconciled
save_released s = do
  saved ← save Kind.snapshot s
  unless saved.1 (λ e. pure (no_requeue, some e)) (pure (no_requeue, none))

unfoldable pub remove_finalizer_and_update : Snapshot → M Reconciled
unfolding save_released
remove_finalizer_and_update s = do
  dropped ← drop_finalizer snapshot_finalizer_name s.meta
  save_released (with_meta s dropped.0)

unfoldable pub release_deleted : Snapshot → M Reconciled
unfolding save_released
release_deleted s = do
  dropped ← drop_finalizer snapshot_finalizer_name s.meta
  if dropped.1 then save_released (with_meta s dropped.0) else pure (requeue_now, none)

unfoldable pub delete_snapshot_with_finalizer : Snapshot → M Reconciled
unfolding delete_shoot_snapshot release_deleted
delete_snapshot_with_finalizer s = do
  failed ← delete_shoot_snapshot s
  unless failed (λ e. pure (no_requeue, some e)) (release_deleted s)
