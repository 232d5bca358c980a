-- ===== src/Schedulers/Objects.antt =====
-- schedulersnapshot_controller.go: the objects that the controller creates and deletes, and the
-- comparison of backup targets.
use backup_restore_openstack.Prelude.{
  ℕ, ◌*◌, String, ◌==◌, Bool, false, true, Option, none, some, List, [], ◌∷◌, concat, if◌then◌else◌,
  nat_eq,
}
use backup_restore_openstack.Prelude.Int.{ℤ, pos, ◌*ℤ◌, wrap}
use backup_restore_openstack.Prelude.Dict.{lookup}
use backup_restore_openstack.Types.Meta.{Error, new_meta}
use backup_restore_openstack.Types.Snapshot.{Snapshot, empty_status}
use backup_restore_openstack.Types.Kube.{
  CreateKubeSnapshot, CreateKubeSnapshotBackupTargets, empty_kube_status,
}
use backup_restore_openstack.Types.Scheduler.{SchedulerSnapshot}
use backup_restore_openstack.Effects.{
  Kind, create, delete, now, Answer, ok, err, M, pure, call, ◌>>=◌,
}
use backup_restore_openstack.Utils.Lists.{length}
use backup_restore_openstack.Utils.Const.{minute, hour}
use backup_restore_openstack.Utils.Sort.{sort_texts}
use backup_restore_openstack.Utils.Cron.{convert_time_now_to_string}

-- what a create or a delete returns of its answer
abbrev pub error_of : {A : Type 0} → Answer A → Option Error
error_of (ok a) = none
error_of (err e) = some e

-- the Snapshot of a PVC at a time
unfoldable pub scheduled_snapshot : String → String → String → String → String → Snapshot
scheduled_snapshot pvc_name shoot_namespace seed_namespace snapshot_type time = record {
  meta = new_meta (concat (pvc_name ∷ "-" ∷ shoot_namespace ∷ "-" ∷ time ∷ [])) seed_namespace;
  spec = record {
    pvc_name = pvc_name;
    snapshot_name = "";
    namespace = shoot_namespace;
    snapshot_type = snapshot_type;
    num_in_use = pos 0;
  };
  status = empty_status;
}

unfoldable pub new_create_snapshot : String → String → String → String → M (Option Error)
unfolding scheduled_snapshot
new_create_snapshot pvc_name shoot_namespace seed_namespace snapshot_type = do
  instant ← call now
  time ← convert_time_now_to_string instant
  created ← call (
      create Kind.snapshot
        (scheduled_snapshot pvc_name shoot_namespace seed_namespace snapshot_type time))
  pure (error_of created)

unfoldable pub new_create_config_snapshot : SchedulerSnapshot → M (Option Error)
new_create_config_snapshot o = do
  instant ← call now
  time ← convert_time_now_to_string instant
  created ← call (
      create Kind.create_kube_snapshot (record {
        meta = new_meta (concat ("fke-configsnapshot-" ∷ time ∷ [])) o.meta.namespace;
        spec = record {
          backup_targets = o.spec.snapshot_scheduler.config_snapshot_class;
          run_counter = pos 1;
        };
        status = empty_kube_status;
      }))
  pure (error_of created)

-- the object that a deletion names
unfoldable pub deleted_snapshot : String → String → String → String → Snapshot
deleted_snapshot snapshot_name seed_namespace pvc_name shoot_namespace = record {
  meta = new_meta snapshot_name seed_namespace;
  spec = record {
    pvc_name = pvc_name;
    snapshot_name = "";
    namespace = shoot_namespace;
    snapshot_type = "";
    num_in_use = pos 0;
  };
  status = empty_status;
}

unfoldable pub new_delete_snapshot : String → String → String → String → M (Option Error)
unfolding deleted_snapshot
new_delete_snapshot snapshot_name seed_namespace pvc_name shoot_namespace = do
  deleted ← call (
      delete Kind.snapshot (deleted_snapshot snapshot_name seed_namespace pvc_name shoot_namespace))
  pure (error_of deleted)

unfoldable pub deleted_config : String → String → CreateKubeSnapshot
deleted_config snapshot_name seed_namespace = record {
  meta = new_meta snapshot_name seed_namespace;
  spec = record {
    backup_targets = record { include_namespaces = none; include_cluster_resources = false };
    run_counter = pos 0;
  };
  status = empty_kube_status;
}

unfoldable pub new_config_delete_snapshot : String → String → M (Option Error)
unfolding deleted_config
new_config_delete_snapshot snapshot_name seed_namespace = do
  deleted ← call (delete Kind.create_kube_snapshot (deleted_config snapshot_name seed_namespace))
  pure (error_of deleted)

-- timeConversion
unfoldable pub unit_duration : String → Option ℕ
unit_duration time_units =
    lookup time_units (("minutes", minute) ∷ ("hours", hour) ∷ ("days", 24 * hour) ∷ [])

-- each product is one of 64-bit integers
unfoldable pub get_default_requeue_after : ℤ → String → ℤ
get_default_requeue_after max_duration time_units =
    if time_units == "minutes"
    then wrap 64 (max_duration *ℤ pos minute)
    else if time_units == "hours"
    then wrap 64 (max_duration *ℤ pos hour)
    else if time_units == "days"
    then wrap 64 (wrap 64 (max_duration *ℤ pos 24) *ℤ pos hour)
    else pos 0

abbrev pub names_of : Option (List String) → List String
names_of none = []
names_of (some names) = names

-- sort.Strings sorts in place: the namespaces of both are left sorted where they are compared
abbrev pub sorted : Option (List String) → Option (List String)
sorted none = none
sorted (some names) = some (sort_texts names)

unfoldable pub texts_equal : List String → List String → Bool
texts_equal [] [] = true
texts_equal (s ∷ ss) (t ∷ ts) = let rest = texts_equal ss ts in if s == t then rest else false
texts_equal _ _ = false

-- reflect.DeepEqual tells a nil slice from an empty one
unfoldable pub deep_equal : Option (List String) → Option (List String) → Bool
unfolding texts_equal
deep_equal none none = true
deep_equal (some ss) (some ts) = texts_equal ss ts
deep_equal _ _ = false

abbrev pub same_bool : Bool → Bool → Bool
same_bool true b = b
same_bool false b = if b then false else true

-- the answer, and the second targets as the sort leaves them
unfoldable pub compare_backup_targets :
    CreateKubeSnapshotBackupTargets
    → CreateKubeSnapshotBackupTargets
    → Bool × CreateKubeSnapshotBackupTargets
unfolding deep_equal
compare_backup_targets a b =
    if same_bool a.include_cluster_resources b.include_cluster_resources
    then if nat_eq (length (names_of a.include_namespaces)) (length (names_of b.include_namespaces))
      then (
        deep_equal (sorted a.include_namespaces) (sorted b.include_namespaces),
        record b { include_namespaces = sorted b.include_namespaces },
      )
      else (false, b)
    else (false, b)
