-- ===== src/System/KubeFrame.antt =====
-- createkubesnapshot_controller.go: a round and the stored count of uses.
use backup_restore_openstack.Prelude.{ℕ, String, Bool, true, false, List}
use backup_restore_openstack.Prelude.Int.{ℤ}
use backup_restore_openstack.Types.Meta.{NamespacedName}
use backup_restore_openstack.Types.Kube.{CreateKubeSnapshot, Pod}
use backup_restore_openstack.Effects.{Request, Env, M}
use backup_restore_openstack.Effects.Triple.{Triple}
use backup_restore_openstack.KubeSnapshot.Node.{nominate_api_server_node}
use backup_restore_openstack.KubeSnapshot.Status.{commit_status, update_kube_status}
use backup_restore_openstack.KubeSnapshot.Cleanup.{
  CleanupPodEverything, cleanup_found, cleanup_pod, remove_finalizer, cleanup,
}
use backup_restore_openstack.KubeSnapshot.Backup.{
  commit_images, refresh_pod, spawn_pod, start_new_backup, finish_backup, run_backup, do_backup,
}
use backup_restore_openstack.KubeSnapshot.Reconcile.{ensure_finalizer, reconcile_object, reconcile}
use backup_restore_openstack.System.Frame
use backup_restore_openstack.System.Shoot.{shoot_frames}

module _ (env : Env) (key : NamespacedName) (first : ℤ) (n : ℤ) (m : ℕ) where
  abbrev Same : List Request → Type 0
  Same = Frame.Same env key first n m

  abbrev Keeps : {A : Type 0} → M A → Type 0
  Keeps a = Triple env Same Same a (λ _. Same)

  node-Keeps : (ns : String) → Keeps (nominate_api_server_node ns)
  unfolding nominate_api_server_node
  node-Keeps ns = search shoot_frames depth 12

  status-Keeps : (o : CreateKubeSnapshot) → Keeps (update_kube_status o)
  unfolding update_kube_status commit_status
  status-Keeps o = search shoot_frames depth 14

  cleaned-Keeps : (o : CreateKubeSnapshot) (all : CleanupPodEverything) → Keeps (cleanup_pod o all)
  unfolding cleanup_pod cleanup_found
  cleaned-Keeps o all = search shoot_frames depth 14

  images-Keeps : (b : Bool) (p : Pod) → Keeps (commit_images b p)
  unfolding commit_images
  images-Keeps true p = search shoot_frames depth 9
  images-Keeps false p = search shoot_frames depth 6

  refresh-Keeps : (p q : Pod) → Keeps (refresh_pod p q)
  unfolding refresh_pod
  refresh-Keeps p q = search (shoot_frames, images-Keeps) depth 9

  spawn-Keeps : (p : Pod) → Keeps (spawn_pod p)
  unfolding spawn_pod
  spawn-Keeps p = search (shoot_frames, refresh-Keeps) depth 14

  start-Keeps : (o : CreateKubeSnapshot) → Keeps (start_new_backup o)
  unfolding start_new_backup
  start-Keeps o = search (shoot_frames, node-Keeps, spawn-Keeps) depth 12

  finish-Keeps : (o : CreateKubeSnapshot) → Keeps (finish_backup o)
  unfolding finish_backup
  finish-Keeps o = search (shoot_frames, status-Keeps) depth 12

  run-Keeps : (o : CreateKubeSnapshot) → Keeps (run_backup o)
  unfolding run_backup
  run-Keeps o = search (shoot_frames, start-Keeps, finish-Keeps) depth 12

  backup-Keeps : (o : CreateKubeSnapshot) → Keeps (do_backup o)
  unfolding do_backup
  backup-Keeps o = search (shoot_frames, status-Keeps, cleaned-Keeps, run-Keeps) depth 14

  cleanup-Keeps : (o : CreateKubeSnapshot) → Keeps (cleanup o)
  unfolding cleanup remove_finalizer
  cleanup-Keeps o = search (shoot_frames, cleaned-Keeps) depth 12

  object-Keeps : (o : CreateKubeSnapshot) → Keeps (reconcile_object o)
  unfolding reconcile_object ensure_finalizer
  object-Keeps o = search (shoot_frames, backup-Keeps, cleanup-Keeps) depth 14

  pub reconcile-Keeps : (req : NamespacedName) → Keeps (reconcile req)
  unfolding reconcile
  reconcile-Keeps req = search (shoot_frames, object-Keeps) depth 12
