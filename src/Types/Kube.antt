-- ===== src/Types/Kube.antt =====
-- api/v1beta1/createkubesnapshot_types.go, and the parts of a pod that the controllers use.
-- A nil slice is `none`, which the API tells from an empty one.
use backup_restore_openstack.Prelude.{ℕ, String, Bool, Option, none, List, []}
use backup_restore_openstack.Prelude.Int.{ℤ, pos}
use backup_restore_openstack.Types.Meta.{ObjectMeta}

pub record CreateKubeSnapshotBackupTargets : Type 0 where
  pub include_namespaces : Option (List String)
  pub include_cluster_resources : Bool

pub record CreateKubeSnapshotSpec : Type 0 where
  pub backup_targets : CreateKubeSnapshotBackupTargets
  pub run_counter : ℤ

pub data KubeSnapshotBackupStatus : Type 0 where
  backup_unset backup_unknown initializing backing_up backup_failed backup_succeeded :
      KubeSnapshotBackupStatus

pub data KubeDumpStatus : Type 0 where
  dump_unset dump_unknown dump_initializing dump_running dump_failed dump_succeeded : KubeDumpStatus

pub record KubeSnapshotJobStatus : Type 0 where
  pub started_at : ℕ
  pub finished_at : ℕ
  pub backup_status : KubeSnapshotBackupStatus
  pub backup_pod_message : String
  pub backup_pod_reason : String
  pub kube_dump_status : KubeDumpStatus
  pub kube_dump_restarts : ℤ
  pub kube_dump_message : String
  pub kube_dump_reason : String

pub record CreateKubeSnapshotStatus : Type 0 where
  pub backup_status : KubeSnapshotBackupStatus
  pub message : String
  pub reason : String
  pub ongoing_run : Option KubeSnapshotJobStatus
  pub last_successful_run : Option KubeSnapshotJobStatus
  pub last_failed_run : Option KubeSnapshotJobStatus
  pub run_counter : ℤ

pub record CreateKubeSnapshot : Type 0 where
  pub meta : ObjectMeta
  pub spec : CreateKubeSnapshotSpec
  pub status : CreateKubeSnapshotStatus

-- pod.Status.Phase; `pod_phase_other` is any text but the five that the API defines
pub data PodPhase : Type 0 where
  pod_pending pod_running pod_succeeded pod_failed pod_unknown pod_phase_other : PodPhase

pub record Terminated : Type 0 where
  pub exit_code : ℤ
  pub message : String
  pub reason : String
  pub finished_at : ℕ

pub record Waiting : Type 0 where
  pub message : String
  pub reason : String

pub record ContainerStatus : Type 0 where
  pub waiting : Option Waiting
  pub running : Bool
  pub terminated : Option Terminated

-- a value, or a reference to a key of a config map
pub data EnvSource : Type 0 where
  value : String → EnvSource
  config_map_key : String → String → EnvSource

pub record EnvVar : Type 0 where
  pub name : String
  pub source : EnvSource

pub record VolumeMount : Type 0 where
  pub name : String
  pub mount_path : String

pub record Container : Type 0 where
  pub name : String
  pub image : String
  pub image_pull_policy : String
  pub args : List String
  pub env : List EnvVar
  pub volume_mounts : List VolumeMount

-- a secret volume: the secret's name, and its keys with their paths
pub record Volume : Type 0 where
  pub name : String
  pub secret_name : String
  pub items : List (String × String)

pub record PodSpec : Type 0 where
  pub node_name : String
  pub restart_policy : String
  pub image_pull_secrets : List String
  pub containers : List Container
  pub volumes : List Volume

pub record PodStatus : Type 0 where
  pub phase : PodPhase
  pub message : String
  pub reason : String
  pub container_statuses : List ContainerStatus

pub record Pod : Type 0 where
  pub meta : ObjectMeta
  pub spec : PodSpec
  pub status : PodStatus

abbrev pub empty_pod_status : PodStatus
empty_pod_status = record {
  phase = PodPhase.pod_phase_other;
  message = "";
  reason = "";
  container_statuses = [];
}

-- CreateKubeSnapshotStatus{}
abbrev pub empty_kube_status : CreateKubeSnapshotStatus
empty_kube_status = record {
  backup_status = KubeSnapshotBackupStatus.backup_unset;
  message = "";
  reason = "";
  ongoing_run = none;
  last_successful_run = none;
  last_failed_run = none;
  run_counter = pos 0;
}
