-- ===== src/Tests/Sample.antt =====
-- A small cluster: one shoot with one PVC, one VolumeSnapshot and one object of each kind in the seed.
use backup_restore_openstack.Prelude.{
  ℕ, ◌+◌, String, ◌==◌, Bool, true, false, ◌||◌, none, some, List, [], ◌∷◌, if◌then◌else◌,
}
use backup_restore_openstack.Prelude.Int.{pos}
use backup_restore_openstack.Types.Meta.{new_meta, plain, Error, Reason}
use backup_restore_openstack.Types.Snapshot as Snapshot
use backup_restore_openstack.Types.Snapshot.{Snapshot, SnapshotStatus, PvSnapshotItem, empty_item}
use backup_restore_openstack.Types.Kube.{
  CreateKubeSnapshot, Pod, PodPhase, Container, empty_pod_status, empty_kube_status,
}
use backup_restore_openstack.Types.Restore as Restore
use backup_restore_openstack.Types.Restore.{
  RestorePvc, RestorePvcSpec, PersistentVolumeClaim, empty_pvc, DataSource,
}
use backup_restore_openstack.Types.Scheduler.{
  PvcSnapshotClass, SnapshotRetentionPolicy, SchedulerSnapshot,
}
use backup_restore_openstack.Types.Lists.{PvcDetail}
use backup_restore_openstack.Types.Json.{Found}
use backup_restore_openstack.Effects.{Kind, Request, Answer, ok, err, Reply, Env}

abbrev pub elem : List String → String → Bool
elem [] x = false
elem (y ∷ ys) x = y == x || elem ys x

abbrev pub without : List String → String → List String
without [] x = []
without (y ∷ ys) x = let rest = without ys x in if y == x then rest else y ∷ rest

-- a snapshot of the PVC "data", used by one restore
abbrev pub snapshot : Snapshot
snapshot = record {
  meta = record (new_meta "snap" "fke-shoot") {
    finalizers = "snapshotv1beta1.mfke.io/snapshot" ∷ [];
  };
  spec = record {
    pvc_name = "data";
    snapshot_name = "snap";
    namespace = "apps";
    snapshot_type = "Manually";
    num_in_use = pos 1;
  };
  status = record Snapshot.empty_status { source_pvc_name = "data"; snapshot_name = "snap" };
}

abbrev pub unused_snapshot : Snapshot
unused_snapshot = record snapshot { spec = record snapshot.spec { num_in_use = pos 0 } }

abbrev pub restore_spec : String → RestorePvcSpec
restore_spec source = record {
  snapshot_name = "snap";
  des_namespace = "apps";
  source_namespace = source;
  access_modes = "ReadWriteOnce" ∷ [];
  storage = "1Gi";
  conflict_handling = "";
}

abbrev pub restore : RestorePvc
restore = record {
  meta = record (new_meta "copy" "fke-shoot") {
    finalizers = "snapshotv1beta1.mfke.io/restorePvc" ∷ [];
  };
  spec = restore_spec "apps";
  status = Restore.empty_status;
}

-- the PVC of that restore
abbrev pub restored_claim : PersistentVolumeClaim
restored_claim = record empty_pvc {
  meta = new_meta "copy" "apps";
  data_source =
      some
        (record { name = "snap"; kind = "VolumeSnapshot"; api_group = "snapshot.storage.k8s.io" });
}

abbrev pub kube_snapshot : CreateKubeSnapshot
kube_snapshot = record {
  meta = new_meta "backup" "fke-shoot";
  spec = record {
    backup_targets = record {
      include_namespaces = some ("apps" ∷ "web" ∷ []);
      include_cluster_resources = true;
    };
    run_counter = pos 1;
  };
  status = empty_kube_status;
}

abbrev pub container : String → Container
container image = record {
  name = "kube-dump";
  image = image;
  image_pull_policy = "";
  args = [];
  env = [];
  volume_mounts = [];
}

abbrev pub pod : String → PodPhase → String → Pod
pod node phase image = record {
  meta = record (new_meta "kube-dump-pod" "fke-shoot") { creation_timestamp = 7 };
  spec = record {
    node_name = node;
    restart_policy = "Never";
    image_pull_secrets = [];
    containers = container image ∷ [];
    volumes = [];
  };
  status = record empty_pod_status { phase = phase };
}

abbrev pub data_class : PvcSnapshotClass
data_class = record { pvc_name = "data"; namespace = "apps" }

abbrev pub data_detail : PvcDetail
data_detail = record {
  pvc_name = "data";
  resources = "1Gi";
  source_snapshot_name = "";
  namespace = "apps";
  volume_name = "";
  storage_class_name = "ssd";
  access_mode = [];
  volume_mode = "";
  status = "";
  creation_time = "";
}

abbrev pub policy : String → ℕ → SnapshotRetentionPolicy
policy units n = record { time_units = units; max = pos n }

-- a scheduler with one class and one schedule
abbrev pub scheduler : String → SchedulerSnapshot
scheduler start = record {
  meta = new_meta "daily" "fke-shoot";
  spec = record {
    enabled = true;
    snapshot_scheduler = record {
      pvc_snapshot_class = data_class ∷ [];
      config_snapshot_class = kube_snapshot.spec.backup_targets;
      schedules = record { start = start; location = "UTC" } ∷ [];
      retention_policy = policy "days" 3;
    };
  };
  conditions = [];
}

abbrev pub item : PvSnapshotItem
item = record empty_item { snapshot_name = "snap"; source_pvc_name = "data" }

abbrev pub missing : Error
missing = record { reason = Reason.not_found; message = "not found" }

-- the seed stores the objects above, the shoot lists the claim; updates of a restore are refused
abbrev pub answer : List Request → (q : Request) → Reply q
answer t (Request.get Kind.snapshot n) = ok snapshot
answer t (Request.get k n) = err missing
answer t (Request.list Kind.snapshot n l) = ok (snapshot ∷ [])
answer t (Request.list k n l) = err missing
answer t (Request.create k o) = ok o
answer t (Request.update Kind.restore_pvc o) = err missing
answer t (Request.update Kind.snapshot o) = ok snapshot
answer t (Request.update k o) = ok o
answer t (Request.update_status k o) = ok o
answer t (Request.patch k o) = ok o
answer t (Request.delete k o) = ok tt
answer t (Request.connect s c) = ok tt
answer t (Request.connect_dynamic s c) = ok tt
answer t Request.list_namespaces = ok ("apps" ∷ [])
answer t (Request.list_pvcs n) = ok (restored_claim ∷ [])
answer t (Request.get_pvc n p) = ok restored_claim
answer t (Request.create_pvc n p) = ok p
answer t (Request.dynamic_list r n) = ok []
answer t (Request.dynamic_create r n o) = ok o
answer t (Request.dynamic_delete r n o) = ok tt
answer t Request.now = 10
answer t (Request.sleep d) = tt

abbrev spec_of : String → Answer (String → ℕ → ℕ)
spec_of s = if s == "@tick" then ok (λ _ u. u + 10) else err (plain "no cron spec")

abbrev pub env : Env
env = record {
  answer = answer;
  contains_finalizer = elem;
  add_finalizer = λ xs x. x ∷ xs;
  remove_finalizer = λ xs x. (without xs x, elem xs x);
  set_status_condition = λ cs c. c ∷ [];
  find_status_condition = λ cs k. none;
  nested_map = λ j k. Found.missing;
  nested_string = λ j k. Found.missing;
  nested_bool = λ j k. Found.missing;
  decode_yaml = λ s. err (plain "no yaml");
  parse_quantity = λ s. some s;
  parse_standard = spec_of;
  load_location = λ s. ok s;
  parse_rfc3339 = λ s. ok 5;
  format_time = λ l t. "time";
  format_compact = λ l t. "2601010000";
  time_string = λ t. "time";
}
