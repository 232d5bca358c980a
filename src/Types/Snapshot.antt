-- ===== src/Types/Snapshot.antt =====
-- api/v1beta1/snapshot_types.go and pvsnapshot_types.go.
use backup_restore_openstack.Prelude.{String, Bool, false, List, []}
use backup_restore_openstack.Prelude.Int.{ℤ}
use backup_restore_openstack.Types.Meta.{ObjectMeta, Condition}

pub record SnapshotSpec : Type 0 where
  pub pvc_name : String
  pub snapshot_name : String
  pub namespace : String
  pub snapshot_type : String
  pub num_in_use : ℤ

pub record SnapshotStatus : Type 0 where
  pub conditions : List Condition
  pub source_pvc_name : String
  pub snapshot_name : String
  pub namespace : String
  pub creation_status : String
  pub volume_snapshot_class_name : String
  pub snapshot_content_name : String
  pub creation_time : String
  pub ready_to_use : Bool
  pub restore_size : String
  pub snapshot_type : String
  pub in_use : Bool

-- SnapshotStatus{}
abbrev pub empty_status : SnapshotStatus
empty_status = record {
  conditions = [];
  source_pvc_name = "";
  snapshot_name = "";
  namespace = "";
  creation_status = "";
  volume_snapshot_class_name = "";
  snapshot_content_name = "";
  creation_time = "";
  ready_to_use = false;
  restore_size = "";
  snapshot_type = "";
  in_use = false;
}

pub record Snapshot : Type 0 where
  pub meta : ObjectMeta
  pub spec : SnapshotSpec
  pub status : SnapshotStatus

pub record PvSnapshotItem : Type 0 where
  pub snapshot_name : String
  pub namespace : String
  pub source_pvc_name : String
  pub volume_snapshot_class_name : String
  pub snapshot_content_name : String
  pub creation_time : String
  pub ready_to_use : Bool
  pub restore_size : String

-- PvSnapshotItem{}
abbrev pub empty_item : PvSnapshotItem
empty_item = record {
  snapshot_name = "";
  namespace = "";
  source_pvc_name = "";
  volume_snapshot_class_name = "";
  snapshot_content_name = "";
  creation_time = "";
  ready_to_use = false;
  restore_size = "";
}
