-- ===== src/KubeSnapshot/Backup.antt =====
-- createkubesnapshot_controller.go, startNewBackup and doBackup.
use backup_restore_openstack.Prelude.{
  String, Bool, true, false, ◌||◌, none, some, [], ◌∷◌, concat, is_some, if◌then◌else◌,
}
use backup_restore_openstack.Prelude.Int.{ltb_ℤ, pos}
use backup_restore_openstack.Types.Meta.{Error, is_already_exists, wrapped}
use backup_restore_openstack.Types.Kube.{CreateKubeSnapshot, PodPhase, Pod}
use backup_restore_openstack.Effects.{
  Kind, get, create, update, Answer, ok, err, M, pure, check, unless, call, ◌>>=◌, Reconciled,
  no_requeue, after,
}
use backup_restore_openstack.Utils.Const.{second}
use backup_restore_openstack.Utils.Kubeconfig.{get_secret_shoot_integrated_kubeconfig_key}
use backup_restore_openstack.Utils.Pods.{update_pod_images}
use backup_restore_openstack.Utils.Resources.{object_meta_to_name}
use backup_restore_openstack.KubeSnapshot.Cleanup.{cleanup_pod, cleanup_finished_pods}
use backup_restore_openstack.KubeSnapshot.Node.{nominate_api_server_node}
use backup_restore_openstack.KubeSnapshot.Pod.{build_kube_dump_pod}
use backup_restore_openstack.KubeSnapshot.Status.{update_kube_status}
use Prim.Native.Nat.{◌*◌}

abbrev failed_with : {A : Type 0} → String → Error → M (Answer A)
failed_with text e = pure (err (wrapped e (concat (text ∷ e.message ∷ []))))

abbrev is_pending : PodPhase → Bool
is_pending PodPhase.pod_pending = true
is_pending _ = false

unfoldable pub commit_images : Bool → Pod → M (Answer Bool)
commit_images false pod = pure (ok false)
commit_images true pod = do
  updated ← call (update Kind.pod pod)
  check updated (failed_with "unable to update kube-dump pod: ") (λ _. pure (ok false))

-- A pod that is there already gets the new images if it is pending.
unfoldable pub refresh_pod : Pod → Pod → M (Answer Bool)
unfolding commit_images
refresh_pod wanted existing =
    if is_pending existing.status.phase
    then (let (changed, needed) = update_pod_images wanted existing in commit_images needed changed)
    else pure (ok false)

unfoldable pub spawn_pod : Pod → M (Answer Bool)
unfolding refresh_pod
spawn_pod pod = do
  created ← call (create Kind.pod pod)
  check created
      (λ e.
        if is_already_exists e
        then (do
          existing ← call (get Kind.pod (object_meta_to_name pod.meta))
          check existing (failed_with "unable to get existing kube-dump pod: ") (refresh_pod pod))
        else failed_with "unable to create kube-dump pod: " e)
      (λ _. pure (ok true))

unfoldable pub start_new_backup : CreateKubeSnapshot → M (Answer Bool)
unfolding spawn_pod
start_new_backup object = do
  kubeconfig ← get_secret_shoot_integrated_kubeconfig_key object.meta.namespace
  check kubeconfig
      (λ e. pure (
        err (
          wrapped e (
            concat
              ("unable to get shoot kubeconfig: " ∷ e.message ∷ " (not a valid shoot?)" ∷ [])))))
      λ key. do
        node ← nominate_api_server_node object.meta.namespace
        check node (failed_with "unable to nominate kube-apiserver node: ") λ n. spawn_pod (
            build_kube_dump_pod object
              (record { node_name = n; shoot_kubeconfig_secret_name = key.name }))

abbrev stopped_with : String → Error → M Reconciled
stopped_with text e = pure (no_requeue, some (wrapped e (concat (text ∷ e.message ∷ []))))

-- Spec.RunCounter > Status.RunCounter
abbrev pub wants_run : CreateKubeSnapshot → Bool
wants_run object = ltb_ℤ object.status.run_counter object.spec.run_counter

-- after the backup: the last update of the status, and the requeue while a run is wanted or going on
unfoldable pub finish_backup : CreateKubeSnapshot → M Reconciled
finish_backup object = do
  reported ← update_kube_status object
  unless reported.1 (stopped_with "unable to update createkubesnapshot status: ") (
      if is_some reported.0.status.ongoing_run || wants_run reported.0
      then pure (after (pos (15 * second)), none)
      else pure (no_requeue, none))

unfoldable pub run_backup : CreateKubeSnapshot → M Reconciled
unfolding finish_backup start_new_backup
run_backup object =
    if wants_run object
    then (do
      started ← start_new_backup object
      check started (stopped_with "unable to start new backup: ") (λ _. finish_backup object))
    else finish_backup object

unfoldable pub do_backup : CreateKubeSnapshot → M Reconciled
unfolding run_backup
do_backup object = do
  reported ← update_kube_status object
  unless reported.1 (stopped_with "unable to update createkubesnapshot status: ") (do
    updated ← call (update Kind.create_kube_snapshot reported.0)
    check updated (stopped_with "unable to update createkubesnapshot: ") λ current. do
      cleaned ← cleanup_pod current cleanup_finished_pods
      unless cleaned (stopped_with "unable to clean up finished pods: ") (run_backup current))
