-- ===== src/Types/Lists.antt =====
-- api/v1beta1/pvc_types.go, pvsnapshot_types.go and syncsnapshot_types.go: the resources that list
-- what a shoot holds. Also the secret and the namespace, of which the code reads little.
use backup_restore_openstack.Prelude.{String, List}
use backup_restore_openstack.Types.Meta.{ObjectMeta, Condition}
use backup_restore_openstack.Types.Snapshot.{SnapshotStatus, PvSnapshotItem}

pub record PvcDetail : Type 0 where
  pub pvc_name : String
  pub resources : String
  pub source_snapshot_name : String
  pub namespace : String
  pub volume_name : String
  pub storage_class_name : String
  pub access_mode : List String
  pub volume_mode : String
  pub status : String
  pub creation_time : String

pub record PvcStatus : Type 0 where
  pub conditions : List Condition
  pub pvc_list : List PvcDetail

pub record Pvc : Type 0 where
  pub meta : ObjectMeta
  pub status : PvcStatus

pub record PvSnapshotStatus : Type 0 where
  pub conditions : List Condition
  pub items : List PvSnapshotItem

pub record PvSnapshot : Type 0 where
  pub meta : ObjectMeta
  pub status : PvSnapshotStatus

pub record SyncSnapshotStatus : Type 0 where
  pub conditions : List Condition
  pub missing_snapshot : List SnapshotStatus
  pub extra_snapshot : List SnapshotStatus

pub record SyncSnapshot : Type 0 where
  pub meta : ObjectMeta
  pub status : SyncSnapshotStatus

-- the secret's name, and the text under its key "kubeconfig"
pub record Secret : Type 0 where
  pub meta : ObjectMeta
  pub kubeconfig : String

pub record Namespace : Type 0 where
  pub meta : ObjectMeta
