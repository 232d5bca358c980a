-- ===== src/Utils/VolumeSnapshots.antt =====
-- internal/controller/utils.go: the VolumeSnapshots of a shoot, read from unstructured objects, and
-- the VolumeSnapshotClass.
use backup_restore_openstack.Prelude.{
  String, ◌==◌, Bool, false, ◌||◌, Option, none, some, List, [], ◌∷◌, ◌++◌,
}
use backup_restore_openstack.Types.Json.{Json, Found, found, missing, mistyped}
use backup_restore_openstack.Types.Snapshot
use backup_restore_openstack.Types.Snapshot.{PvSnapshotItem, SnapshotStatus}
use backup_restore_openstack.Effects.{
  dynamic_list, dynamic_create, Answer, ok, err, Env, M, pure, asks, check, call, ◌>>=◌,
}
use backup_restore_openstack.Utils.Const.{volume_snapshot, unknown}

-- `if err != nil || !found { … }`
abbrev pub when_found : {A B : Type 0} → Found A → B → (A → B) → B
when_found (found a) other go = go a
when_found missing other go = other
when_found mistyped other go = other

-- convertToUTCPlus7
unfoldable pub convert_to_utc_plus_7 : Env → String → Answer String
convert_to_utc_plus_7 env s = elim (env.parse_rfc3339 s) [
  | ok t ↦ ok (env.format_time "UTC+7" t)
  | err e ↦ err e
]

-- the time converted, or as it stands where it cannot be
abbrev converted : Env → String → String
converted env s = elim (convert_to_utc_plus_7 env s) [ ok c ↦ c | err e ↦ s ]

-- the end of the loop's body, from the creation time on
unfoldable pub read_status : Env → PvSnapshotItem → Json → PvSnapshotItem
unfolding convert_to_utc_plus_7
read_status env item status =
    when_found (env.nested_string status "creationTime") (record item { creation_time = unknown })
      λ created. record item {
        creation_time = converted env created;
        ready_to_use = when_found (env.nested_bool status "readyToUse") false (λ b. b);
        restore_size = when_found (env.nested_string status "restoreSize") unknown (λ s. s);
      }

-- The body of the loop over the listed objects; `none` is `continue`.
unfoldable pub read_item : Env → Json → Option PvSnapshotItem
unfolding read_status
read_item env item = when_found (env.nested_map item "metadata") none λ metadata.
    when_found (env.nested_string metadata "name") none λ name.
      when_found (env.nested_string metadata "namespace") none λ namespace.
        when_found (env.nested_map item "spec") none λ spec.
          when_found (env.nested_map spec "source") none λ source.
            when_found (env.nested_string source "persistentVolumeClaimName") none λ pvc_name.
              when_found (env.nested_map item "status") none λ status. some (
                read_status env
                  (record Snapshot.empty_item {
                    snapshot_name = name;
                    namespace = namespace;
                    source_pvc_name = pvc_name;
                    volume_snapshot_class_name =
                        when_found (env.nested_string spec "volumeSnapshotClassName") unknown
                          (λ s. s);
                    snapshot_content_name =
                        when_found (env.nested_string status "boundVolumeSnapshotContentName")
                          unknown (λ s. s);
                  })
                  status)

abbrev prepend : {A : Type 0} → Option A → List A → List A
prepend none l = l
prepend (some a) l = a ∷ l

unfoldable pub read_items : Env → List Json → List PvSnapshotItem
unfolding read_item
read_items env [] = []
read_items env (o ∷ os) = prepend (read_item env o) (read_items env os)

unfoldable pub get_volume_snapshot_in_shoot : String → M (Answer (List PvSnapshotItem))
unfolding read_items
get_volume_snapshot_in_shoot ns = do
  listed ← call (dynamic_list volume_snapshot ns)
  check listed (λ e. pure (err e))
      λ objects. do items ← asks (λ env. read_items env objects); pure (ok items)

-- getPvSnapshotListPerNamespace
unfoldable pub get_pv_snapshot_list_per_namespace : String → M (Answer (List PvSnapshotItem))
unfolding get_volume_snapshot_in_shoot
get_pv_snapshot_list_per_namespace ns = do
  listed ← get_volume_snapshot_in_shoot ns
  check listed (λ e. pure (err e)) (λ items. pure (ok items))

-- a SnapshotStatus with what the item has
abbrev pub status_of_item : PvSnapshotItem → SnapshotStatus
status_of_item item = record Snapshot.empty_status {
  source_pvc_name = item.source_pvc_name;
  snapshot_name = item.snapshot_name;
  namespace = item.namespace;
  volume_snapshot_class_name = item.volume_snapshot_class_name;
  snapshot_content_name = item.snapshot_content_name;
  creation_time = item.creation_time;
  ready_to_use = item.ready_to_use;
  restore_size = item.restore_size;
}

abbrev pub statuses : List PvSnapshotItem → List SnapshotStatus
statuses [] = []
statuses (i ∷ is) = status_of_item i ∷ statuses is

-- getPvSnapshotStatus: a namespace that cannot be listed is skipped
unfoldable pub get_pv_snapshot_status : List String → M (List SnapshotStatus)
unfolding get_volume_snapshot_in_shoot
get_pv_snapshot_status [] = pure []
get_pv_snapshot_status (ns ∷ nss) = do
  listed ← get_volume_snapshot_in_shoot ns
  rest ← get_pv_snapshot_status nss
  check listed (λ e. pure rest) (λ items. pure (statuses items ++ rest))

-- whether an object is the class, in checkVolumeSnapshotClasses
abbrev is_snap_class : Env → Json → Bool
is_snap_class env item = when_found (env.nested_map item "metadata") false λ metadata.
    when_found (env.nested_string metadata "name") false (λ name. name == "csi-cinder-snapclass")

unfoldable pub any_snap_class : Env → List Json → Bool
any_snap_class env [] = false
any_snap_class env (o ∷ os) = is_snap_class env o || any_snap_class env os

unfoldable pub check_volume_snapshot_classes : M (Answer Bool)
unfolding any_snap_class
check_volume_snapshot_classes = do
  listed ← call (dynamic_list "volumesnapshotclasses" "")
  check listed (λ e. pure (err e))
      λ objects. do existed ← asks (λ env. any_snap_class env objects); pure (ok existed)

abbrev class_yaml : String
class_yaml =
    "\napiVersion: snapshot.storage.k8s.io/v1\nkind: VolumeSnapshotClass\nmetadata:\n  name: csi-cinder-snapclass\n  annotations:\n    snapshot.storage.kubernetes.io/is-default-class: \"true\"\ndriver: cinder.csi.openstack.org\ndeletionPolicy: Delete\nparameters:\n  type: Premium-SSD\n  force-create: \"true\"\n"

unfoldable pub create_volume_snapshot_classes : M (Answer String)
create_volume_snapshot_classes = do
  decoded ← asks (λ env. env.decode_yaml class_yaml)
  check decoded (λ e. pure (err e))
      λ object. do
        created ← call (dynamic_create "volumesnapshotclasses" "" object)
        check created (λ e. pure (err e)) (λ _. pure (ok "csi-cinder-snapclass"))
