-- ===== src/Snapshots/Status.antt =====
-- snapshot_controller.go: buildSnapshotStatus, statusEqual and updateSnapshotStatus.
use backup_restore_openstack.Prelude.{
  String, ◌==◌, Bool, true, false, not, ◌&&◌, Option, none, some, [], ◌∷◌, concat, if◌then◌else◌,
}
use backup_restore_openstack.Prelude.Int.{pos, ltb_ℤ}
use backup_restore_openstack.Types.Meta.{Error, plain}
use backup_restore_openstack.Types.Snapshot.{Snapshot, SnapshotStatus, PvSnapshotItem}
use backup_restore_openstack.Effects.{Kind, M, pure, unless, save_status, ◌>>=◌}

-- a == b on Booleans
abbrev pub same_bool : Bool → Bool → Bool
same_bool true b = b
same_bool false b = not b

unfoldable pub status_equal : SnapshotStatus → SnapshotStatus → Bool
status_equal a b =
    a.source_pvc_name == b.source_pvc_name
    && a.snapshot_name == b.snapshot_name
    && a.namespace == b.namespace
    && a.volume_snapshot_class_name == b.volume_snapshot_class_name
    && a.snapshot_content_name == b.snapshot_content_name
    && a.creation_time == b.creation_time
    && not (b.creation_time == "N/A")
    && same_bool a.ready_to_use b.ready_to_use
    && a.restore_size == b.restore_size
    && a.creation_status == b.creation_status
    && same_bool a.in_use b.in_use

unfoldable pub build_snapshot_status : Snapshot → PvSnapshotItem → String → SnapshotStatus
build_snapshot_status snapshot item creation_status = record {
  conditions = [];
  source_pvc_name = snapshot.spec.pvc_name;
  snapshot_name = snapshot.meta.name;
  namespace = snapshot.spec.namespace;
  creation_status = creation_status;
  volume_snapshot_class_name = item.volume_snapshot_class_name;
  snapshot_content_name = item.snapshot_content_name;
  creation_time = item.creation_time;
  ready_to_use = item.ready_to_use;
  restore_size = item.restore_size;
  snapshot_type = snapshot.spec.snapshot_type;
  in_use = ltb_ℤ (pos 0) snapshot.spec.num_in_use;
}

-- `if !statusEqual(snapshot.Status, newStatus) { snapshot.Status = newStatus; r.Status().Update(…) }`
-- with the object afterwards, and the error
unfoldable pub commit_if_changed : Snapshot → SnapshotStatus → M (Snapshot × Option Error)
unfolding status_equal
commit_if_changed snapshot new =
    if status_equal snapshot.status new
    then pure (snapshot, none)
    else save_status Kind.snapshot (record snapshot { status = new })

unfoldable pub update_snapshot_status : Snapshot → SnapshotStatus → M (Snapshot × Option Error)
unfolding commit_if_changed
update_snapshot_status snapshot new = do
  saved ← commit_if_changed snapshot new
  unless saved.1
      (λ e. pure (
        saved.0,
        some (plain (concat ("failed to update snapshot CRD status: " ∷ e.message ∷ []))),
      ))
      (pure saved)
