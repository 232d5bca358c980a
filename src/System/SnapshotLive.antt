-- ===== src/System/SnapshotLive.antt =====
-- snapshot_controller.go: a round for a Snapshot that is not deleted.
use backup_restore_openstack.Prelude.{ℕ, zero, suc, String, Bool, List}
use backup_restore_openstack.Prelude.Int.{ℤ}
use backup_restore_openstack.Types.Meta.{Error, NamespacedName, Condition}
use backup_restore_openstack.Types.Snapshot.{Snapshot, SnapshotStatus, PvSnapshotItem}
use backup_restore_openstack.Effects.{Request, Env, M, Reconciled}
use backup_restore_openstack.Effects.Triple.{Triple, Triple-bind, Triple-panic}
use backup_restore_openstack.Utils.VolumeSnapshots.{
  check_volume_snapshot_classes, create_volume_snapshot_classes,
}
use backup_restore_openstack.Snapshots.Create.{
  Created, poll, ensure_class, create_snapshot, create_new, reconcile_create_snapshot,
}
use backup_restore_openstack.Snapshots.Outcome.{
  report_failure, handle_snapshot_error, handle_timeout, commit_condition, handle_retry,
  clear_annotation, handle_ready, handle_snapshot_success,
}
use backup_restore_openstack.Snapshots.Reconcile.{handle_created, reconcile_live}
use backup_restore_openstack.Restores.Ledger.{IsStore}
use backup_restore_openstack.System.Frame
use backup_restore_openstack.System.Frame.{frames, pure-Keeps}
use backup_restore_openstack.System.Shoot.{shoot_frames}
use backup_restore_openstack.System.SnapshotFrame
use backup_restore_openstack.System.SnapshotFrame.{
  save-Saved, save_status-Saved, then-Saved, commit-Saved, update-Saved, pure-Made, or-Made,
}

module _ (env : Env) (key : NamespacedName) (first : ℤ) (store : IsStore env key first) (n : ℤ)
    (m : ℕ) where
  abbrev Same : List Request → Type 0
  Same = Frame.Same env key first n m

  abbrev Keeps : {A : Type 0} → M A → Type 0
  Keeps a = Triple env Same Same a (λ _. Same)

  abbrev Fresh : Snapshot → Type 0
  Fresh = SnapshotFrame.Fresh env key first store n m

  abbrev Made : Created → List Request → Type 0
  Made = SnapshotFrame.Made env key first store n m

  classes-Keeps : Keeps check_volume_snapshot_classes
  unfolding check_volume_snapshot_classes
  classes-Keeps = search frames depth 12

  class-Keeps : (b : Bool) → Keeps (ensure_class b)
  unfolding ensure_class create_volume_snapshot_classes
  class-Keeps b = search frames depth 14

  creation-Keeps : (name class pvc ns : String) → Keeps (create_snapshot name class pvc ns)
  unfolding create_snapshot
  creation-Keeps name class pvc ns = search frames depth 12

  poll-Made : (k : ℕ) (s : Snapshot) → Fresh s → Triple env Same Same (poll k s) Made
  unfolding poll
  poll-Made zero s f = pure-Made env key first store n m s _ _ f
  poll-Made (suc k) s f =
      let rest = poll-Made k s f in search (shoot_frames, or-Made, rest) depth 12

  new-Made : (s : Snapshot) → Fresh s → Triple env Same Same (create_new s) Made
  unfolding create_new
  new-Made s f =
      search (frames, classes-Keeps, class-Keeps, creation-Keeps, pure-Made, poll-Made) depth 12

  create-Made : (s : Snapshot) → Fresh s → Triple env Same Same (reconcile_create_snapshot s) Made
  unfolding reconcile_create_snapshot
  create-Made s f = search (shoot_frames, pure-Made, or-Made, new-Made, Triple-panic) depth 12

  failure-Keeps : (s : Snapshot) (e : Error) → Fresh s → Keeps (report_failure s e)
  unfolding report_failure
  failure-Keeps s e f = search frames depth 12

  error-Keeps :
      (s : Snapshot) (i : PvSnapshotItem) (e : Error)
      → Fresh s
      → Keeps (handle_snapshot_error s i e)
  unfolding handle_snapshot_error
  error-Keeps s i e f = search (frames, then-Saved, update-Saved, failure-Keeps) depth 9

  timeout-Keeps : (s : Snapshot) (new : SnapshotStatus) → Fresh s → Keeps (handle_timeout s new)
  unfolding handle_timeout
  timeout-Keeps s new f = search (frames, then-Saved, commit-Saved) depth 12

  clear-Keeps : (s : Snapshot) → Fresh s → Keeps (clear_annotation s)
  unfolding clear_annotation
  clear-Keeps s f = search (frames, then-Saved, save-Saved) depth 9

  conditioned-Keeps :
      (s : Snapshot) (c : Condition) (go : Snapshot → M Reconciled)
      → Fresh s
      → ((o : Snapshot) → Fresh o → Keeps (go o))
      → Keeps (commit_condition s c go)
  unfolding commit_condition
  conditioned-Keeps s c go f h = search (frames, then-Saved, save_status-Saved, h) depth 12

  retry-Keeps :
      (s : Snapshot) (i : PvSnapshotItem) (new : SnapshotStatus)
      → Fresh s
      → Keeps (handle_retry s i new)
  unfolding handle_retry
  retry-Keeps s i new f =
      search (frames, then-Saved, save-Saved, commit-Saved, conditioned-Keeps) depth 12

  ready-Keeps : (s : Snapshot) (new : SnapshotStatus) → Fresh s → Keeps (handle_ready s new)
  unfolding handle_ready
  ready-Keeps s new f =
      search (frames, then-Saved, commit-Saved, conditioned-Keeps, clear-Keeps) depth 12

  success-Keeps :
      (s : Snapshot) (i : PvSnapshotItem) → Fresh s → Keeps (handle_snapshot_success s i)
  unfolding handle_snapshot_success
  success-Keeps s i f = search (frames, timeout-Keeps, retry-Keeps, ready-Keeps) depth 9

  created-Keeps : (c : Created) → Fresh c.object → Keeps (handle_created c)
  unfolding handle_created
  created-Keeps c f = search (frames, error-Keeps, success-Keeps) depth 9

  pub live-Keeps : (s : Snapshot) → Fresh s → Keeps (reconcile_live s)
  unfolding reconcile_live
  live-Keeps s f =
      Triple-bind {Q = Made} (reconcile_create_snapshot s) _ (create-Made s f)
        (λ c. record { at = λ t r. (created-Keeps c r.1).at t r.0 })
