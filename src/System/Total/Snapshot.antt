-- ===== src/System/Total/Snapshot.antt =====
-- snapshot_controller.go: when a round returns.
use backup_restore_openstack.Prelude.{
  some, none, ℕ, ◌*◌, zero, suc, String, Bool, Option, List, [], ◌∷◌,
}
use backup_restore_openstack.Types.Meta.{Error, NamespacedName, Condition}
use backup_restore_openstack.Types.Snapshot.{Snapshot, SnapshotStatus, PvSnapshotItem}
use backup_restore_openstack.Effects.{sleep, connect_dynamic, Env, M, Reconciled}
use backup_restore_openstack.Effects.Triple.{Triple-then, Triple-check, Triple-if, Triple-unless}
use backup_restore_openstack.Utils.Const.{second}
use backup_restore_openstack.Utils.VolumeSnapshots.{
  check_volume_snapshot_classes, create_volume_snapshot_classes,
}
use backup_restore_openstack.Snapshots.Create.{
  Created, poll, ensure_class, create_snapshot, create_new, reconcile_create_snapshot,
}
use backup_restore_openstack.Snapshots.Delete.{
  is_of, delete_snapshot, delete_listed, delete_shoot_snapshot, save_released,
  remove_finalizer_and_update, release_deleted, delete_snapshot_with_finalizer,
}
use backup_restore_openstack.Snapshots.Outcome.{
  report_failure, handle_snapshot_error, handle_timeout, commit_condition, handle_retry,
  clear_annotation, handle_ready, handle_snapshot_success,
}
use backup_restore_openstack.Snapshots.Reconcile.{
  handle_created, reconcile_live, finalize_in, reconcile_deleted, initialize, ensure_finalizer,
  reconcile_found, reconcile,
}
use backup_restore_openstack.Snapshots.Create.{find_item, accept_item, accept_or}
use backup_restore_openstack.Snapshots.Status.{commit_if_changed, update_snapshot_status}
use backup_restore_openstack.System.Total.{IsTotal, pure-IsTotal, call-IsTotal, loop-IsTotal}
use backup_restore_openstack.System.Total.Shoot.{
  AreFound, kubeconfig-IsTotal, listing-IsTotal, on_found-IsTotal, shoot_totals,
}

module _ (env : Env) where
  classes-IsTotal : IsTotal env check_volume_snapshot_classes
  unfolding check_volume_snapshot_classes
  classes-IsTotal = search shoot_totals depth 12

  class-IsTotal : (b : Bool) → IsTotal env (ensure_class b)
  unfolding ensure_class create_volume_snapshot_classes
  class-IsTotal b = search shoot_totals depth 14

  creation-IsTotal : (name class pvc ns : String) → IsTotal env (create_snapshot name class pvc ns)
  unfolding create_snapshot
  creation-IsTotal name class pvc ns = search shoot_totals depth 12

  commit-IsTotal : (s : Snapshot) (new : SnapshotStatus) → IsTotal env (commit_if_changed s new)
  unfolding commit_if_changed
  commit-IsTotal s new = search shoot_totals depth 9

  update-IsTotal :
      (s : Snapshot) (new : SnapshotStatus) → IsTotal env (update_snapshot_status s new)
  unfolding update_snapshot_status
  update-IsTotal s new = search (shoot_totals, commit-IsTotal) depth 9

  or-IsTotal :
      (s : Snapshot) (other : M Created) (o : Option PvSnapshotItem)
      → IsTotal env other
      → IsTotal env (accept_or s other o)
  unfolding accept_or accept_item
  or-IsTotal s other none h = h
  or-IsTotal s other (some i) h = search shoot_totals depth 12

  poll-IsTotal : (k : ℕ) (s : Snapshot) → IsTotal env (poll k s)
  unfolding poll
  poll-IsTotal zero s = search shoot_totals depth 6
  poll-IsTotal (suc k) s = Triple-then _ _ (call-IsTotal env (sleep (2 * second))) (λ slept.
      Triple-then _ _ (listing-IsTotal env s.spec.namespace) (λ listed.
        Triple-check listed _ _ (λ e h. poll-IsTotal k s)
          (λ items h.
            or-IsTotal s (poll k s) (find_item s.meta.name s.spec.pvc_name items)
              (poll-IsTotal k s))))

  new-IsTotal : (s : Snapshot) → IsTotal env (create_new s)
  unfolding create_new
  new-IsTotal s =
      search (shoot_totals, classes-IsTotal, class-IsTotal, creation-IsTotal, poll-IsTotal) depth 12

  create-IsTotal : AreFound env → (s : Snapshot) → IsTotal env (reconcile_create_snapshot s)
  unfolding reconcile_create_snapshot
  create-IsTotal h s = Triple-then _ _ (kubeconfig-IsTotal env s.meta.namespace) (λ kubeconfig.
      Triple-check kubeconfig _ _ (λ e k. pure-IsTotal env _)
        (λ config k. Triple-then _ _ (call-IsTotal env (connect_dynamic config _)) (λ connected.
          Triple-check connected _ _ (λ e j. pure-IsTotal env _)
            (λ made j.
              on_found-IsTotal env s.spec.namespace _ _ h
                (λ items. or-IsTotal s (create_new s) _ (new-IsTotal s))))))

  failure-IsTotal : (s : Snapshot) (e : Error) → IsTotal env (report_failure s e)
  unfolding report_failure
  failure-IsTotal s e = search shoot_totals depth 12

  error-IsTotal :
      (s : Snapshot) (i : PvSnapshotItem) (e : Error) → IsTotal env (handle_snapshot_error s i e)
  unfolding handle_snapshot_error
  error-IsTotal s i e = search (shoot_totals, update-IsTotal, failure-IsTotal) depth 9

  timeout-IsTotal : (s : Snapshot) (new : SnapshotStatus) → IsTotal env (handle_timeout s new)
  unfolding handle_timeout
  timeout-IsTotal s new = search (shoot_totals, commit-IsTotal) depth 12

  clear-IsTotal : (s : Snapshot) → IsTotal env (clear_annotation s)
  unfolding clear_annotation
  clear-IsTotal s = search shoot_totals depth 9

  conditioned-IsTotal :
      (s : Snapshot) (c : Condition) (go : Snapshot → M Reconciled)
      → ((o : Snapshot) → IsTotal env (go o))
      → IsTotal env (commit_condition s c go)
  unfolding commit_condition
  conditioned-IsTotal s c go h = search (shoot_totals, h) depth 12

  retry-IsTotal :
      (s : Snapshot) (i : PvSnapshotItem) (new : SnapshotStatus)
      → IsTotal env (handle_retry s i new)
  unfolding handle_retry
  retry-IsTotal s i new = search (shoot_totals, commit-IsTotal, conditioned-IsTotal) depth 12

  ready-IsTotal : (s : Snapshot) (new : SnapshotStatus) → IsTotal env (handle_ready s new)
  unfolding handle_ready
  ready-IsTotal s new =
      search (shoot_totals, commit-IsTotal, conditioned-IsTotal, clear-IsTotal) depth 12

  success-IsTotal : (s : Snapshot) (i : PvSnapshotItem) → IsTotal env (handle_snapshot_success s i)
  unfolding handle_snapshot_success
  success-IsTotal s i = search (shoot_totals, timeout-IsTotal, retry-IsTotal, ready-IsTotal) depth 9

  created-IsTotal : (c : Created) → IsTotal env (handle_created c)
  unfolding handle_created
  created-IsTotal c = search (shoot_totals, error-IsTotal, success-IsTotal) depth 9

  live-IsTotal : AreFound env → (s : Snapshot) → IsTotal env (reconcile_live s)
  unfolding reconcile_live
  live-IsTotal h s = search (shoot_totals, create-IsTotal, created-IsTotal) depth 9

  deletion-IsTotal : (name ns : String) → IsTotal env (delete_snapshot name ns)
  unfolding delete_snapshot
  deletion-IsTotal name ns = search shoot_totals depth 9

  listed-IsTotal :
      (s : Snapshot) (items : List PvSnapshotItem) → IsTotal env (delete_listed s items)
  unfolding delete_listed
  listed-IsTotal s [] = search shoot_totals depth 6
  listed-IsTotal s (i ∷ items) =
      Triple-if (is_of s i) _ _
        (λ h.
          loop-IsTotal env (delete_snapshot s.meta.name s.spec.namespace) (delete_listed s items)
            (deletion-IsTotal s.meta.name s.spec.namespace) (listed-IsTotal s items))
        (λ h. listed-IsTotal s items)

  shoot-IsTotal : (s : Snapshot) → IsTotal env (delete_shoot_snapshot s)
  unfolding delete_shoot_snapshot
  shoot-IsTotal s = search (shoot_totals, listed-IsTotal) depth 12

  released-IsTotal : (s : Snapshot) → IsTotal env (save_released s)
  unfolding save_released
  released-IsTotal s = search shoot_totals depth 9

  removed-IsTotal : (s : Snapshot) → IsTotal env (remove_finalizer_and_update s)
  unfolding remove_finalizer_and_update
  removed-IsTotal s = search (shoot_totals, released-IsTotal) depth 9

  release-IsTotal : (s : Snapshot) → IsTotal env (release_deleted s)
  unfolding release_deleted
  release-IsTotal s = search (shoot_totals, Triple-if, released-IsTotal) depth 9

  finalized-IsTotal : (s : Snapshot) → IsTotal env (delete_snapshot_with_finalizer s)
  unfolding delete_snapshot_with_finalizer
  finalized-IsTotal s = search (shoot_totals, shoot-IsTotal, release-IsTotal) depth 12

  finalize_in-IsTotal : (s : Snapshot) (d : Option ℕ) → IsTotal env (finalize_in s d)
  unfolding finalize_in
  finalize_in-IsTotal s d = search (shoot_totals, finalized-IsTotal, removed-IsTotal) depth 9

  deleted-IsTotal : (ns : String) (s : Snapshot) → IsTotal env (reconcile_deleted ns s)
  unfolding reconcile_deleted
  deleted-IsTotal ns s = search (shoot_totals, finalize_in-IsTotal) depth 14

  initialize-IsTotal : (s : Snapshot) → IsTotal env (initialize s)
  unfolding initialize
  initialize-IsTotal s = search shoot_totals depth 12

  ensure-IsTotal : (s : Snapshot) → IsTotal env (ensure_finalizer s)
  unfolding ensure_finalizer
  ensure-IsTotal s = search (shoot_totals, Triple-unless) depth 12

  found-IsTotal :
      AreFound env
      → (ns : String) (s : Snapshot) (cs : List Condition) → IsTotal env (reconcile_found ns s cs)
  unfolding reconcile_found
  found-IsTotal h ns s [] = initialize-IsTotal s
  found-IsTotal h ns s (c ∷ cs) = search (shoot_totals, live-IsTotal, deleted-IsTotal) depth 9

  pub reconcile-IsTotal : AreFound env → (req : NamespacedName) → IsTotal env (reconcile req)
  unfolding reconcile
  reconcile-IsTotal h req = search (shoot_totals, found-IsTotal, ensure-IsTotal) depth 14
