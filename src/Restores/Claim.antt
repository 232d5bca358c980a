-- ===== src/Restores/Claim.antt =====
-- restorepvc_controller.go, restorePvc: the PVC that is created in the shoot.
use backup_restore_openstack.Prelude.{String, ◌==◌, Option, none, some, if◌then◌else◌}
use backup_restore_openstack.Types.Meta.{Error, new_meta, value_of}
use backup_restore_openstack.Types.Restore.{
  RestorePvcSpec, RestorePvcStatus, empty_status, PersistentVolumeClaim, empty_pvc,
}
use backup_restore_openstack.Effects.{create_pvc, M, pure, panic, asks, check, call, ◌>>=◌}

-- the status of a restore that failed, from the spec
abbrev pub failed_status : String → String → RestorePvcSpec → RestorePvcStatus
failed_status creation_status name spec = record empty_status {
  creation_status = creation_status;
  restore_pvc_name = name;
  resources = spec.storage;
  source_snapshot_name = spec.snapshot_name;
  source_namespace = spec.source_namespace;
  des_namespace = spec.des_namespace;
}

-- the PVC for a restore within one namespace, with its size as a quantity
unfoldable pub claim_for : String → RestorePvcSpec → String → PersistentVolumeClaim
claim_for name spec size = record empty_pvc {
  meta = new_meta name spec.des_namespace;
  data_source = some (record {
    name = spec.snapshot_name;
    kind = "VolumeSnapshot";
    api_group = "snapshot.storage.k8s.io";
  });
  access_modes = spec.access_modes;
  requests_storage = size;
}

-- returnPVC.Spec.DataSourceRef.Namespace, where both pointers are set
abbrev ref_namespace : Option (Option String) → String
ref_namespace none = ""
ref_namespace (some ns) = value_of ns

unfoldable pub created_status : RestorePvcSpec → PersistentVolumeClaim → RestorePvcStatus
created_status spec pvc = record empty_status {
  creation_status = "True";
  restore_pvc_name = pvc.meta.name;
  des_namespace = pvc.meta.namespace;
  resources = pvc.capacity_storage;
  source_snapshot_name = spec.snapshot_name;
  source_namespace = ref_namespace pvc.data_source_ref;
  volume_name = pvc.volume_name;
  storage_class_name = value_of pvc.storage_class_name;
  access_mode = pvc.status_access_modes;
  volume_mode = value_of pvc.volume_mode;
  status = pvc.phase;
  creation_time = pvc.meta.creation_timestamp;
}

unfoldable pub create_claim :
    String → RestorePvcSpec → PersistentVolumeClaim → M (RestorePvcStatus × Option Error)
unfolding created_status
create_claim name spec pvc = do
  made ← call (create_pvc spec.des_namespace pvc)
  check made (λ e. pure (failed_status "False" name spec, some e))
      (λ stored. pure (created_status spec stored, none))

-- resource.MustParse, which panics on a text that is no quantity
abbrev pub must_parse : {A : Type 0} → Option String → (String → M A) → M A
must_parse none go = panic
must_parse (some q) go = go q

unfoldable pub restore_pvc : String → RestorePvcSpec → M (RestorePvcStatus × Option Error)
unfolding create_claim claim_for
restore_pvc name spec =
    if spec.source_namespace == spec.des_namespace
    then (do
      size ← asks (λ env. env.parse_quantity spec.storage)
      must_parse size (λ q. create_claim name spec (claim_for name spec q)))
    else create_claim name spec empty_pvc
