-- ===== src/Types/Restore.antt =====
-- api/v1beta1/restorepvc_types.go, and the parts of a PersistentVolumeClaim that the code uses. A
-- quantity is its canonical text, and so is an access mode.
use backup_restore_openstack.Prelude.{ℕ, String, Option, none, List, []}
use backup_restore_openstack.Types.Meta.{ObjectMeta, Condition, new_meta}

pub record RestorePvcSpec : Type 0 where
  pub snapshot_name : String
  pub des_namespace : String
  pub source_namespace : String
  pub access_modes : List String
  pub storage : String
  pub conflict_handling : String

pub record RestorePvcStatus : Type 0 where
  pub conditions : List Condition
  pub creation_status : String
  pub restore_pvc_name : String
  pub resources : String
  pub source_snapshot_name : String
  pub source_namespace : String
  pub des_namespace : String
  pub volume_name : String
  pub storage_class_name : String
  pub access_mode : List String
  pub volume_mode : String
  pub status : String
  pub creation_time : ℕ
  pub conflict_handling : String

-- RestorePvcStatus{}
abbrev pub empty_status : RestorePvcStatus
empty_status = record {
  conditions = [];
  creation_status = "";
  restore_pvc_name = "";
  resources = "";
  source_snapshot_name = "";
  source_namespace = "";
  des_namespace = "";
  volume_name = "";
  storage_class_name = "";
  access_mode = [];
  volume_mode = "";
  status = "";
  creation_time = 0;
  conflict_handling = "";
}

pub record RestorePvc : Type 0 where
  pub meta : ObjectMeta
  pub spec : RestorePvcSpec
  pub status : RestorePvcStatus

pub record DataSource : Type 0 where
  pub name : String
  pub kind : String
  pub api_group : String

pub record PersistentVolumeClaim : Type 0 where
  pub meta : ObjectMeta
  pub data_source : Option DataSource
  -- DataSourceRef and its Namespace, both pointers
  pub data_source_ref : Option (Option String)
  pub volume_name : String
  pub storage_class_name : Option String
  pub access_modes : List String
  pub volume_mode : Option String
  pub requests_storage : String
  pub phase : String
  pub capacity_storage : String
  pub status_access_modes : List String

-- PersistentVolumeClaim{}
abbrev pub empty_pvc : PersistentVolumeClaim
empty_pvc = record {
  meta = new_meta "" "";
  data_source = none;
  data_source_ref = none;
  volume_name = "";
  storage_class_name = none;
  access_modes = [];
  volume_mode = none;
  requests_storage = "0";
  phase = "";
  capacity_storage = "0";
  status_access_modes = [];
}
