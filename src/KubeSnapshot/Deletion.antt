-- ===== src/KubeSnapshot/Deletion.antt =====
-- What a deleted backup leaves behind: cleanup.
use backup_restore_openstack.Prelude.{◌≡◌, List, ◌∷◌, arith, if◌then◌else◌}
use backup_restore_openstack.Types.Meta.{NamespacedName, is_not_found}
use backup_restore_openstack.Types.Kube.{CreateKubeSnapshot}
use backup_restore_openstack.Effects.{Kind, Request, ok, err, Env, get, update, delete, ◌>>=◌}
use backup_restore_openstack.Utils.Resources.{object_meta_to_name}
use backup_restore_openstack.KubeSnapshot.Pod.{build_kube_dump_pod, no_settings}
use backup_restore_openstack.KubeSnapshot.Cleanup.{cleanup, without_finalizer}

abbrev pub pod_key : CreateKubeSnapshot → NamespacedName
pod_key c = object_meta_to_name (build_kube_dump_pod c no_settings).meta

-- The update that takes the finalizer off.
abbrev pub release : Env → CreateKubeSnapshot → Request
release env c = update Kind.create_kube_snapshot (without_finalizer env c)

-- The requests of a cleanup: the pod is looked up; if it is there it is deleted; and the finalizer is
-- taken off only if the pod was not found or its deletion was accepted.
abbrev pub expected_cleanup : Env → CreateKubeSnapshot → List Request → List Request
expected_cleanup env c t = elim (env.answer t (get Kind.pod (pod_key c))) [
  | ok pod ↦
      let asked = delete Kind.pod pod ∷ get Kind.pod (pod_key c) ∷ t in
      elim (env.answer (get Kind.pod (pod_key c) ∷ t) (delete Kind.pod pod)) [
        | ok _ ↦ release env c ∷ asked
        | err _ ↦ asked
      ]
  | err e ↦
      let asked = get Kind.pod (pod_key c) ∷ t in
      if is_not_found e then release env c ∷ asked else asked
]

-- The trace of cleanup is the expected one, whatever the answers are.
pub cleanup_requests :
    (env : Env) (c : CreateKubeSnapshot) (t : List Request)
    → (cleanup c env t).1 ≡ expected_cleanup env c t
unfolding cleanup ◌>>=◌
cleanup_requests env c t = ground arith
