-- ===== src/KubeSnapshot/Cleanup.antt =====
-- createkubesnapshot_controller.go, cleanupPod and cleanup.
use backup_restore_openstack.Prelude.{
  Bool, true, false, Option, none, some, [], ◌∷◌, concat, if◌then◌else◌,
}
use backup_restore_openstack.Types.Meta.{Error, is_not_found, wrapped}
use backup_restore_openstack.Types.Kube.{CreateKubeSnapshot, PodPhase, Pod}
use backup_restore_openstack.Effects.{
  Kind, get, update, delete, Env, M, pure, asks, check, unless, call, ◌>>=◌, Reconciled, no_requeue,
}
use backup_restore_openstack.Utils.Const.{snapshot_finalizer_name}
use backup_restore_openstack.Utils.Resources.{object_meta_to_name}
use backup_restore_openstack.KubeSnapshot.Pod.{build_kube_dump_pod, no_settings}

pub data CleanupPodEverything : Type 0 where
  cleanup_all_pods cleanup_finished_pods : CleanupPodEverything

abbrev pub is_finished : PodPhase → Bool
is_finished PodPhase.pod_succeeded = true
is_finished PodPhase.pod_failed = true
is_finished _ = false

-- `if !all { switch pod.Status.Phase { … } }`: whether the pod is to be deleted
abbrev pub to_delete : CleanupPodEverything → PodPhase → Bool
to_delete CleanupPodEverything.cleanup_all_pods phase = true
to_delete CleanupPodEverything.cleanup_finished_pods phase = is_finished phase

unfoldable pub cleanup_found : CleanupPodEverything → Pod → M (Option Error)
cleanup_found all pod =
    if to_delete all pod.status.phase
    then (do
      deleted ← call (delete Kind.pod pod)
      check deleted
          (λ e.
            pure (some (wrapped e (concat ("unable to delete kube-dump pod: " ∷ e.message ∷ [])))))
          (λ _. pure none))
    else pure none

unfoldable pub cleanup_pod : CreateKubeSnapshot → CleanupPodEverything → M (Option Error)
unfolding cleanup_found
cleanup_pod create all = do
  got ← call (get Kind.pod (object_meta_to_name (build_kube_dump_pod create no_settings).meta))
  check got
      (λ e.
        if is_not_found e
        then pure none
        else pure (some (wrapped e (concat ("unable to get kube-dump pod: " ∷ e.message ∷ [])))))
      (λ pod. cleanup_found all pod)

abbrev pub without_finalizer : Env → CreateKubeSnapshot → CreateKubeSnapshot
without_finalizer env create = record create {
  meta = record create.meta {
    finalizers = (env.remove_finalizer create.meta.finalizers snapshot_finalizer_name).0;
  };
}

unfoldable pub remove_finalizer : CreateKubeSnapshot → M Reconciled
remove_finalizer create = do
  changed ← asks (λ env. without_finalizer env create)
  updated ← call (update Kind.create_kube_snapshot changed)
  check updated
      (λ e. pure (
        no_requeue,
        some (wrapped e (concat ("unable to update createkubesnapshot: " ∷ e.message ∷ []))),
      ))
      (λ _. pure (no_requeue, none))

unfoldable pub cleanup : CreateKubeSnapshot → M Reconciled
unfolding cleanup_pod remove_finalizer
cleanup create = do
  cleaned ← cleanup_pod create CleanupPodEverything.cleanup_all_pods
  unless cleaned
      (λ e.
        pure (no_requeue, some (wrapped e (concat ("unable to clean up pods: " ∷ e.message ∷ [])))))
      (remove_finalizer create)
