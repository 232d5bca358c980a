-- ===== src/Snapshots/Create.antt =====
-- snapshot_controller.go: ReconcileCreateSnapshot and createSnapshot.
use backup_restore_openstack.Prelude.{
  ℕ, zero, suc, ◌*◌, String, ◌==◌, Bool, ◌&&◌, Option, none, some, List, [], ◌∷◌, concat,
  if◌then◌else◌,
}
use backup_restore_openstack.Types.Meta.{Error, plain, is_set, delete}
use backup_restore_openstack.Types.Snapshot.{Snapshot, PvSnapshotItem, empty_item}
use backup_restore_openstack.Effects.{
  panic, Kind, connect_dynamic, dynamic_create, sleep, M, pure, asks, check, unless, call, save,
  ◌>>=◌, ◌>>◌,
}
use backup_restore_openstack.Utils.Const.{
  create_snapshot_enabled_annotation, volume_snapshot, volume_snapshot_class_name, second,
}
use backup_restore_openstack.Utils.Strings.{trim_prefix}
use backup_restore_openstack.Utils.Kubeconfig.{get_secret_shoot_integrated_kubeconfig}
use backup_restore_openstack.Utils.VolumeSnapshots.{
  get_pv_snapshot_list_per_namespace, check_volume_snapshot_classes, create_volume_snapshot_classes,
}

-- What the function returns, with the object that it was given: an item, and the error.
pub record Created : Type 0 where
  pub object : Snapshot
  pub item : PvSnapshotItem
  pub error : Option Error

abbrev pub created : Snapshot → PvSnapshotItem → Option Error → Created
created s i e = record { object = s; item = i; error = e }

-- the first listed item with the snapshot's name and source
unfoldable pub find_item : String → String → List PvSnapshotItem → Option PvSnapshotItem
find_item name pvc [] = none
find_item name pvc (i ∷ is) =
    if i.snapshot_name == name && i.source_pvc_name == pvc then some i else find_item name pvc is

-- The item is there: the annotation that asked for it is taken off.
unfoldable pub accept_item : Snapshot → PvSnapshotItem → M Created
accept_item s item =
    if is_set s.meta.annotations create_snapshot_enabled_annotation
    then (do
      saved ← save Kind.snapshot (record s {
        meta = record s.meta {
          annotations = delete s.meta.annotations create_snapshot_enabled_annotation;
        };
      })
      unless saved.1
          (λ e. pure (
            created saved.0 item (
              some (
                plain (
                  concat (
                    "error to delete annotation " ∷ create_snapshot_enabled_annotation
                    ∷ " in createSnapshot resource: [" ∷ e.message ∷ "]" ∷ []))))))
          (pure (created saved.0 item none)))
    else pure (created s item none)

-- The YAML of the VolumeSnapshot.
abbrev pub snapshot_yaml : String → String → String → String
snapshot_yaml name class pvc = concat (
    "\napiVersion: snapshot.storage.k8s.io/v1\nkind: VolumeSnapshot\nmetadata:\n  name: " ∷ name
    ∷ "\nspec:\n  volumeSnapshotClassName: " ∷ class
    ∷ "\n  source:\n    persistentVolumeClaimName: " ∷ pvc ∷ "\n" ∷ [])

unfoldable pub create_snapshot : String → String → String → String → M (Option Error)
create_snapshot name class pvc namespace = do
  decoded ← asks (λ env. env.decode_yaml (snapshot_yaml name class pvc))
  check decoded (λ e. pure (some e))
      λ object. do
        made ← call (dynamic_create volume_snapshot namespace object)
        check made (λ e. pure (some e)) (λ _. pure none)

-- what the loop does with a listing: the item ends it, and without one it goes on
unfoldable pub accept_or : Snapshot → M Created → Option PvSnapshotItem → M Created
unfolding accept_item
accept_or s other none = other
accept_or s other (some item) = accept_item s item

-- The wait for the VolumeSnapshot: `maxRetries` rounds, of which the argument are left.
unfoldable pub poll : ℕ → Snapshot → M Created
unfolding accept_or find_item
poll zero s =
    pure (created s empty_item (some (plain "snapshot creation timed out after 5 retries")))
poll (suc n) s = do
  call (sleep (2 * second))
  listed ← get_pv_snapshot_list_per_namespace s.spec.namespace
  check listed (λ e. poll n s)
      (λ items. accept_or s (poll n s) (find_item s.meta.name s.spec.pvc_name items))

-- the class is made where it is missing; a failure of that is only logged
unfoldable pub ensure_class : Bool → M (Unit {0})
ensure_class existed = if existed then pure tt else (do create_volume_snapshot_classes; pure tt)

-- from the check of the class on, for a snapshot that is not there yet
unfoldable pub create_new : Snapshot → M Created
unfolding create_snapshot poll ensure_class
create_new s = do
  existed ← check_volume_snapshot_classes
  check existed (λ e. pure (created s empty_item (some e)))
      λ is_there. do
        ensure_class is_there
        failed ←
            create_snapshot s.meta.name volume_snapshot_class_name s.spec.pvc_name s.spec.namespace
        unless failed (λ e. pure (created s empty_item (some e))) (poll 5 s)

-- a listing that fails is logged with a key without a value, which panics in development mode
unfoldable pub reconcile_create_snapshot : Snapshot → M Created
unfolding create_new
reconcile_create_snapshot s = do
  let cluster_name = trim_prefix s.meta.namespace "fke-"
  kubeconfig ← get_secret_shoot_integrated_kubeconfig s.meta.namespace
  check kubeconfig
      (λ e. pure (
        created s empty_item (
          some (
            plain (
              concat (
                "unable to get shoot secret data kubeconfig in ns " ∷ cluster_name ∷ ": "
                ∷ e.message ∷ []))))))
      λ config. do
        connected ← call (connect_dynamic config cluster_name)
        check connected
            (λ e. pure (
              created s empty_item (
                some (
                  plain (
                    concat (
                      "unable to create dynamic shoot client set " ∷ cluster_name ∷ ": " ∷ e.message
                      ∷ []))))))
            λ _. do
              listed ← get_pv_snapshot_list_per_namespace s.spec.namespace
              check listed (λ e. panic)
                  (λ items.
                    accept_or s (create_new s) (find_item s.meta.name s.spec.pvc_name items))
