-- ===== src/KubeSnapshot/Requests.antt =====
-- Which requests a backup makes, whatever the API server answers.
use backup_restore_openstack.Prelude.{◌≡◌, true}
use backup_restore_openstack.Types.Kube.{Pod}
use backup_restore_openstack.Effects.{
  Kind, Request, create, delete, create_pvc, dynamic_create, dynamic_delete,
}
use backup_restore_openstack.KubeSnapshot.Cleanup.{is_finished}

-- A backup deletes nothing but finished pods, and creates nothing but the pod named kube-dump-pod.
abbrev pub IsBackupRequest : Request → Type 0
IsBackupRequest (delete Kind.pod p) = is_finished p.status.phase ≡ true
IsBackupRequest (delete _ _) = ⊥
IsBackupRequest (create Kind.pod p) = p.meta.name ≡ "kube-dump-pod"
IsBackupRequest (create _ _) = ⊥
IsBackupRequest (create_pvc _ _) = ⊥
IsBackupRequest (dynamic_create _ _ _) = ⊥
IsBackupRequest (dynamic_delete _ _ _) = ⊥
IsBackupRequest _ = Unit
