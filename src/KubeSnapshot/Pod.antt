-- ===== src/KubeSnapshot/Pod.antt =====
-- createkubesnapshot_controller.go, buildKubeDumpPodMeta and buildKubeDumpPod.
use backup_restore_openstack.Prelude.{
  String, Bool, true, false, none, some, List, [], ◌∷◌, concat, join,
}
use backup_restore_openstack.Prelude.Int.{pos, ◌+ℤ◌, wrap}
use backup_restore_openstack.Types.Meta.{ObjectMeta, new_meta}
use backup_restore_openstack.Types.Kube.{
  CreateKubeSnapshotBackupTargets, CreateKubeSnapshot, value, config_map_key, EnvVar, Pod,
  empty_pod_status,
}
use backup_restore_openstack.Utils.Const.{create_kube_snapshot_run_counter_annotation, label_role}
use backup_restore_openstack.Utils.Decimal.{itoa}

pub record KubeDumpSettings : Type 0 where
  pub node_name : String
  pub shoot_kubeconfig_secret_name : String

abbrev pub no_settings : KubeDumpSettings
no_settings = record { node_name = ""; shoot_kubeconfig_secret_name = "" }

abbrev kube_dump_to_s3_image : String
kube_dump_to_s3_image =
    "registry.fke.fptcloud.com/762c8029-26d9-4bea-b461-989ee4d4890f/kube-dump-to-s3"

abbrev kube_dump_to_s3_version : String
kube_dump_to_s3_version = "0.0.5"

abbrev s3_config_map_name : String
s3_config_map_name = "createkubesnapshot-s3-configmap"

abbrev s3_secrets_name : String
s3_secrets_name = "createkubesnapshot-s3-secret"

-- the labels, with the values of gardener's constants
abbrev pod_labels : List (String × String)
pod_labels =
    (label_role, "kube-dump")
    ∷ ("app", "backup-restore-openstack-mfke")
    ∷ ("gardener.cloud/role", "system-component")
    ∷ ("networking.gardener.cloud/to-apiserver", "allowed")
    ∷ ("networking.gardener.cloud/to-kubelet", "allowed")
    ∷ ("networking.gardener.cloud/to-shoot-apiserver", "allowed")
    ∷ ("networking.gardener.cloud/to-all-shoot-apiservers", "allowed")
    ∷ ("networking.gardener.cloud/to-seed-apiserver", "allowed")
    ∷ ("networking.gardener.cloud/to-dns", "allowed")
    ∷ ("networking.gardener.cloud/to-private-networks", "allowed")
    ∷ ("networking.gardener.cloud/to-public-networks", "allowed")
    ∷ ("networking.gardener.cloud/from-shoot-apiserver", "allowed")
    ∷ []

unfoldable pub build_kube_dump_pod_meta : CreateKubeSnapshot → ObjectMeta
build_kube_dump_pod_meta create = record (new_meta "kube-dump-pod" create.meta.namespace) {
  labels = pod_labels;
  annotations = some (
      (
        create_kube_snapshot_run_counter_annotation,
        itoa (wrap 32 (create.status.run_counter +ℤ pos 1)),
      )
      ∷ []);
}

-- strconv.FormatBool
abbrev format_bool : Bool → String
format_bool true = "true"
format_bool false = "false"

unfoldable pub kube_dump_args : CreateKubeSnapshotBackupTargets → List String
kube_dump_args backup =
    "--cluster"
    ∷ format_bool backup.include_cluster_resources
    ∷ elim backup.include_namespaces [ none ↦ [] | some l ↦ "--namespaces" ∷ join "," l ∷ [] ]

-- utils.go, envFromConfigMap
abbrev env_from_config_map : String → String → String → EnvVar
env_from_config_map env name key = record { name = env; source = config_map_key name key }

abbrev env_value : String → String → EnvVar
env_value env v = record { name = env; source = value v }

unfoldable pub build_kube_dump_pod : CreateKubeSnapshot → KubeDumpSettings → Pod
unfolding build_kube_dump_pod_meta kube_dump_args
build_kube_dump_pod create settings = record {
  meta = build_kube_dump_pod_meta create;
  spec = record {
    node_name = settings.node_name;
    restart_policy = "OnFailure";
    image_pull_secrets = "regcred" ∷ [];
    containers =
        record {
          name = "kube-dump";
          image = concat (kube_dump_to_s3_image ∷ ":" ∷ kube_dump_to_s3_version ∷ []);
          image_pull_policy = "IfNotPresent";
          args = kube_dump_args create.spec.backup_targets;
          env =
              env_value "DEBUG" "true"
              ∷ env_value "TMPDIR" "/tmp"
              ∷ env_value "KUBECONFIG" "/run/secrets/k8s/kubeconfig"
              ∷ env_value "SECRETS_DIR" "/run/secrets/s3"
              ∷ env_value "S3_PREFIX" (concat (create.meta.namespace ∷ "/" ∷ create.meta.name ∷ []))
              ∷ env_from_config_map "S3_BUCKET" s3_config_map_name "bucket"
              ∷ env_from_config_map "S3_REGION" s3_config_map_name "region"
              ∷ env_from_config_map "S3_ENDPOINT" s3_config_map_name "endpoint"
              ∷ [];
          volume_mounts =
              record { name = "kubeconfig"; mount_path = "/run/secrets/k8s" }
              ∷ record { name = "s3-secrets"; mount_path = "/run/secrets/s3" }
              ∷ [];
        }
        ∷ [];
    volumes =
        record {
          name = "kubeconfig";
          secret_name = settings.shoot_kubeconfig_secret_name;
          items = ("kubeconfig", "kubeconfig") ∷ [];
        }
        ∷ record {
          name = "s3-secrets";
          secret_name = s3_secrets_name;
          items = ("id", "s3_access_key") ∷ ("secret", "s3_secret_key") ∷ [];
        }
        ∷ [];
  };
  status = empty_pod_status;
}
