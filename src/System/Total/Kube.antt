-- ===== src/System/Total/Kube.antt =====
-- createkubesnapshot_controller.go: when a round returns.
use backup_restore_openstack.Prelude.{String, Bool, true, false}
use backup_restore_openstack.Types.Meta.{NamespacedName}
use backup_restore_openstack.Types.Kube.{CreateKubeSnapshot, Pod}
use backup_restore_openstack.Effects.{Env}
use backup_restore_openstack.KubeSnapshot.Node.{nominate_api_server_node}
use backup_restore_openstack.KubeSnapshot.Status.{commit_status, update_kube_status}
use backup_restore_openstack.KubeSnapshot.Cleanup.{
  CleanupPodEverything, cleanup_found, cleanup_pod, remove_finalizer, cleanup,
}
use backup_restore_openstack.KubeSnapshot.Backup.{
  commit_images, refresh_pod, spawn_pod, start_new_backup, finish_backup, run_backup, do_backup,
}
use backup_restore_openstack.KubeSnapshot.Reconcile.{ensure_finalizer, reconcile_object, reconcile}
use backup_restore_openstack.System.Total.{IsTotal}
use backup_restore_openstack.System.Total.Shoot.{shoot_totals}

module _ (env : Env) where
  node-IsTotal : (ns : String) → IsTotal env (nominate_api_server_node ns)
  unfolding nominate_api_server_node
  node-IsTotal ns = search shoot_totals depth 12

  status-IsTotal : (o : CreateKubeSnapshot) → IsTotal env (update_kube_status o)
  unfolding update_kube_status commit_status
  status-IsTotal o = search shoot_totals depth 14

  cleaned-IsTotal :
      (o : CreateKubeSnapshot) (all : CleanupPodEverything) → IsTotal env (cleanup_pod o all)
  unfolding cleanup_pod cleanup_found
  cleaned-IsTotal o all = search shoot_totals depth 14

  images-IsTotal : (b : Bool) (p : Pod) → IsTotal env (commit_images b p)
  unfolding commit_images
  images-IsTotal true p = search shoot_totals depth 9
  images-IsTotal false p = search shoot_totals depth 6

  refresh-IsTotal : (p q : Pod) → IsTotal env (refresh_pod p q)
  unfolding refresh_pod
  refresh-IsTotal p q = search (shoot_totals, images-IsTotal) depth 9

  spawn-IsTotal : (p : Pod) → IsTotal env (spawn_pod p)
  unfolding spawn_pod
  spawn-IsTotal p = search (shoot_totals, refresh-IsTotal) depth 14

  start-IsTotal : (o : CreateKubeSnapshot) → IsTotal env (start_new_backup o)
  unfolding start_new_backup
  start-IsTotal o = search (shoot_totals, node-IsTotal, spawn-IsTotal) depth 12

  finish-IsTotal : (o : CreateKubeSnapshot) → IsTotal env (finish_backup o)
  unfolding finish_backup
  finish-IsTotal o = search (shoot_totals, status-IsTotal) depth 12

  run-IsTotal : (o : CreateKubeSnapshot) → IsTotal env (run_backup o)
  unfolding run_backup
  run-IsTotal o = search (shoot_totals, start-IsTotal, finish-IsTotal) depth 12

  backup-IsTotal : (o : CreateKubeSnapshot) → IsTotal env (do_backup o)
  unfolding do_backup
  backup-IsTotal o = search (shoot_totals, status-IsTotal, cleaned-IsTotal, run-IsTotal) depth 14

  cleanup-IsTotal : (o : CreateKubeSnapshot) → IsTotal env (cleanup o)
  unfolding cleanup remove_finalizer
  cleanup-IsTotal o = search (shoot_totals, cleaned-IsTotal) depth 12

  object-IsTotal : (o : CreateKubeSnapshot) → IsTotal env (reconcile_object o)
  unfolding reconcile_object ensure_finalizer
  object-IsTotal o = search (shoot_totals, backup-IsTotal, cleanup-IsTotal) depth 14

  pub reconcile-IsTotal : (req : NamespacedName) → IsTotal env (reconcile req)
  unfolding reconcile
  reconcile-IsTotal req = search (shoot_totals, object-IsTotal) depth 12
