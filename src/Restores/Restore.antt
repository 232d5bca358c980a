-- ===== src/Restores/Restore.antt =====
-- restorepvc_controller.go: ReconcileRestorePvc and removeRestoreAnnotation.
use backup_restore_openstack.Prelude.{
  String, ◌==◌, not, Option, none, some, List, [], ◌∷◌, concat, if◌then◌else◌,
}
use backup_restore_openstack.Types.Meta.{Error, plain, is_set, delete, value_of}
use backup_restore_openstack.Types.Restore.{
  RestorePvc, RestorePvcStatus, empty_status, DataSource, PersistentVolumeClaim,
}
use backup_restore_openstack.Effects.{
  Kind, connect, list_pvcs, M, pure, panic, check, unless, call, save, ◌>>=◌,
}
use backup_restore_openstack.Utils.Const.{restore_pvc_enabled_annotation}
use backup_restore_openstack.Utils.Strings.{slice_from}
use backup_restore_openstack.Utils.Kubeconfig.{get_secret_shoot_integrated_kubeconfig}
use backup_restore_openstack.Restores.InUse.{update_increase_in_use_snapshot}
use backup_restore_openstack.Restores.Claim.{failed_status, restore_pvc}

-- What the function returns, with the object that it was given: a status, and the error.
pub record Restored : Type 0 where
  pub object : RestorePvc
  pub status : RestorePvcStatus
  pub error : Option Error

abbrev pub restored : RestorePvc → RestorePvcStatus → Option Error → Restored
restored r s e = record { object = r; status = s; error = e }

-- the status of a PVC that is there already, restored from the same snapshot
unfoldable pub existing_status : PersistentVolumeClaim → DataSource → RestorePvcStatus
existing_status pvc source = record empty_status {
  creation_status = "Succeeded";
  restore_pvc_name = pvc.meta.name;
  resources = pvc.capacity_storage;
  source_snapshot_name = source.name;
  source_namespace = pvc.meta.namespace;
  des_namespace = pvc.meta.namespace;
  volume_name = pvc.volume_name;
  storage_class_name = value_of pvc.storage_class_name;
  access_mode = pvc.access_modes;
  volume_mode = value_of pvc.volume_mode;
  status = pvc.phase;
  creation_time = pvc.meta.creation_timestamp;
}

-- a listed PVC with the name of the restore: what the loop returns for it, if it returns
unfoldable pub match_claim :
    RestorePvc → PersistentVolumeClaim → Option DataSource → Option Restored
unfolding existing_status
match_claim r pvc none =
    some
      (restored r (failed_status "Failed" r.meta.name r.spec) (some (plain "the PVC name is used")))
match_claim r pvc (some source) =
    if source.name == r.spec.snapshot_name
    then some (restored r (existing_status pvc source) none)
    else none

abbrev pub or_else : {A : Type 0} → Option A → Option A → Option A
or_else none other = other
or_else (some a) other = some a

-- the loop over the PVCs of the destination namespace
unfoldable pub find_claim : RestorePvc → List PersistentVolumeClaim → Option Restored
unfolding match_claim
find_claim r [] = none
find_claim r (pvc ∷ pvcs) =
    if pvc.meta.name == r.meta.name
    then or_else (match_claim r pvc pvc.data_source) (find_claim r pvcs)
    else find_claim r pvcs

-- delete(restorePvc.Annotations, …) and the update
unfoldable pub drop_annotation : RestorePvc → M (RestorePvc × Option Error)
drop_annotation r = save Kind.restore_pvc (record r {
  meta = record r.meta { annotations = delete r.meta.annotations restore_pvc_enabled_annotation };
})

-- after a PVC was created: the annotation is taken off, or the use of the snapshot is counted
unfoldable pub count_restore : RestorePvc → RestorePvcStatus → M Restored
unfolding drop_annotation
count_restore r status =
    if is_set r.meta.annotations restore_pvc_enabled_annotation
    then (do
      saved ← drop_annotation r
      unless saved.1
          (λ e. pure (
            restored saved.0 status (
              some (
                plain (
                  concat (
                    "error to delete annotation " ∷ restore_pvc_enabled_annotation
                    ∷ " in restorePvc resource: [" ∷ e.message ∷ "]" ∷ []))))))
          (pure (restored saved.0 status none)))
    else if not (status.creation_status == "Failed")
    then (do failed ← update_increase_in_use_snapshot r; pure (restored r status failed))
    else pure (restored r status none)

unfoldable pub restore_new : String → RestorePvc → M Restored
unfolding count_restore
restore_new cluster_name r = do
  made ← restore_pvc r.meta.name r.spec
  unless made.1
      (λ e. pure (
        restored r (failed_status "Failed" r.meta.name r.spec) (
          some (
            plain (
              concat (
                "unable to restore pvc " ∷ r.meta.name ∷ " from snapshot " ∷ r.spec.snapshot_name
                ∷ " in shoot " ∷ cluster_name ∷ ": " ∷ e.message ∷ []))))))
      (count_restore r made.0)

unfoldable pub restore_or_find : String → RestorePvc → Option Restored → M Restored
unfolding restore_new
restore_or_find cluster_name r (some known) = pure known
restore_or_find cluster_name r none = restore_new cluster_name r

abbrev pub known_or_none : Option String → (String → M Restored) → M Restored
known_or_none none go = panic
known_or_none (some s) go = go s

-- namespace[4:] panics on a shorter name. A listing that fails counts as an empty one.
unfoldable pub reconcile_restore_pvc : RestorePvc → M Restored
unfolding restore_or_find find_claim
reconcile_restore_pvc r = known_or_none (slice_from r.meta.namespace 4) λ cluster_name. do
  kubeconfig ← get_secret_shoot_integrated_kubeconfig r.meta.namespace
  check kubeconfig
      (λ e. pure (
        restored r empty_status (
          some (
            plain (
              concat (
                "unable to get shoot secret data kubeconfig in ns " ∷ cluster_name ∷ ": "
                ∷ e.message ∷ []))))))
      λ config. do
        connected ← call (connect config cluster_name)
        check connected
            (λ e. pure (
              restored r empty_status (
                some (
                  plain (
                    concat (
                      "unable to create shoot client set " ∷ cluster_name ∷ ": " ∷ e.message
                      ∷ []))))))
            λ _. do
              listed ← call (list_pvcs r.spec.des_namespace)
              check listed (λ e. restore_or_find cluster_name r none)
                  (λ pvcs. restore_or_find cluster_name r (find_claim r pvcs))

-- the object after the call; the error is only logged
unfoldable pub remove_restore_annotation : RestorePvc → M RestorePvc
unfolding drop_annotation
remove_restore_annotation r =
    if is_set r.meta.annotations restore_pvc_enabled_annotation
    then (do saved ← drop_annotation r; pure saved.0)
    else pure r
