-- ===== src/Listings/PvcList.antt =====
-- pvc_controller.go, ReconcilePvc. reflect.DeepEqual on the lists tells nil from empty too, but a list
-- that is empty is nil on both sides.
use backup_restore_openstack.Prelude.{
  String, ◌==◌, Bool, true, false, ◌&&◌, Option, none, some, List, [], ◌∷◌, concat, if◌then◌else◌,
}
use backup_restore_openstack.Types.Meta.{Error, plain, is_set, delete}
use backup_restore_openstack.Types.Lists.{Pvc, PvcDetail}
use backup_restore_openstack.Effects.{
  Kind, connect, M, pure, check, unless, call, save, save_status, ◌>>=◌,
}
use backup_restore_openstack.Utils.Const.{pvc_reconcile_annotation}
use backup_restore_openstack.Utils.Strings.{slice_from}
use backup_restore_openstack.Utils.Kubeconfig.{get_secret_shoot_integrated_kubeconfig}
use backup_restore_openstack.Utils.Shoot.{deref, get_namespace, get_pvc}
use backup_restore_openstack.Schedulers.Objects.{texts_equal}

unfoldable pub detail_equal : PvcDetail → PvcDetail → Bool
unfolding texts_equal
detail_equal a b =
    a.pvc_name == b.pvc_name
    && a.resources == b.resources
    && a.source_snapshot_name == b.source_snapshot_name
    && a.namespace == b.namespace
    && a.volume_name == b.volume_name
    && a.storage_class_name == b.storage_class_name
    && texts_equal a.access_mode b.access_mode
    && a.volume_mode == b.volume_mode
    && a.status == b.status
    && a.creation_time == b.creation_time

unfoldable pub details_equal : List PvcDetail → List PvcDetail → Bool
unfolding detail_equal
details_equal [] [] = true
details_equal (a ∷ rest) (b ∷ others) =
    let tails = details_equal rest others in detail_equal a b && tails
details_equal _ _ = false

-- the object after the call, and the error
abbrev pub Listed : Type 0
Listed = Pvc × Option Error

-- the annotation that asked for this round is taken off
unfoldable pub clear_annotation : Pvc → M Listed
clear_annotation o =
    if is_set o.meta.annotations pvc_reconcile_annotation
    then (do
      saved ← save Kind.pvc (record o {
        meta = record o.meta { annotations = delete o.meta.annotations pvc_reconcile_annotation };
      })
      unless saved.1
          (λ e. pure (
            saved.0,
            some (
                plain (
                  concat (
                    "error to delete annotation snapshotv1beta1.mfke.io/pvc-reconcile in pvc resource: ["
                    ∷ e.message ∷ "]" ∷ []))),
          ))
          (pure saved))
    else pure (o, none)

-- the status is written only if the listing is another one
unfoldable pub write_list : Pvc → List PvcDetail → M Listed
unfolding details_equal clear_annotation
write_list o pvcs = if details_equal o.status.pvc_list pvcs then clear_annotation o else (do
  saved ← save_status Kind.pvc (record o { status = record o.status { pvc_list = pvcs } })
  unless saved.1
      (λ e. pure (
        saved.0,
        some (plain (concat ("failed to update PVC status in seed cluster: " ∷ e.message ∷ []))),
      ))
      (clear_annotation saved.0))

abbrev failed : Pvc → List String → M Listed
failed o text = pure (o, some (plain (concat text)))

-- namespace[4:] panics on a shorter name
unfoldable pub reconcile_pvc : Pvc → M Listed
unfolding write_list
reconcile_pvc o = deref (slice_from o.meta.namespace 4) λ cluster_name. do
  kubeconfig ← get_secret_shoot_integrated_kubeconfig o.meta.namespace
  check kubeconfig
      (λ e. failed o (
        "unable to get shoot secret data kubeconfig in ns " ∷ cluster_name ∷ ": " ∷ e.message ∷ []))
      λ config. do
        connected ← call (connect config cluster_name)
        check connected
            (λ e.
              failed o
                ("unable to create shoot client set " ∷ cluster_name ∷ ": " ∷ e.message ∷ []))
            λ _. do namespaces ← get_namespace; pvcs ← get_pvc namespaces; write_list o pvcs
