-- ===== src/System/SnapshotRounds.antt =====
-- snapshot_controller.go: a round and the stored count of uses.
use backup_restore_openstack.Prelude.{
  ℕ, String, ◌≡◌, ◌∙◌, refl, Bool, if◌then◌else◌, Option, List, [], ◌∷◌,
}
use backup_restore_openstack.Prelude.Int.{ℤ}
use backup_restore_openstack.Types.Meta.{Error, NamespacedName, ObjectMeta, Condition}
use backup_restore_openstack.Types.Snapshot.{Snapshot, PvSnapshotItem}
use backup_restore_openstack.Effects.{
  Kind, Request, get, Answer, ok, err, Env, M, has_finalizer, add_finalizer, drop_finalizer, call,
  check, ◌>>=◌, Reconciled,
}
use backup_restore_openstack.Effects.Triple.{Triple, Post, Triple-if, Triple-unless}
use backup_restore_openstack.Utils.Const.{snapshot_finalizer_name}
use backup_restore_openstack.Snapshots.Create.{Created}
use backup_restore_openstack.Snapshots.Delete.{
  is_of, delete_snapshot, delete_listed, delete_shoot_snapshot, save_released,
  remove_finalizer_and_update, release_deleted, delete_snapshot_with_finalizer,
}
use backup_restore_openstack.Snapshots.Reconcile.{
  finalize_in, reconcile_deleted, initialize, ensure_finalizer, reconcile_found, reconcile,
}
use backup_restore_openstack.Restores.Ledger.{IsStore}
use backup_restore_openstack.System.Frame
use backup_restore_openstack.System.Frame.{frames, pure-Keeps}
use backup_restore_openstack.System.Shoot.{shoot_frames}
use backup_restore_openstack.System.SnapshotFrame
use backup_restore_openstack.System.SnapshotLive.{live-Keeps}
use backup_restore_openstack.System.SnapshotFrame.{
  save-Saved, save_status-Saved, then-Saved, commit-Saved, update-Saved, pure-Made, or-Made,
}

module _ (env : Env) (key : NamespacedName) (first : ℤ) (store : IsStore env key first) (n : ℤ)
    (m : ℕ) where
  abbrev Same : List Request → Type 0
  Same = Frame.Same env key first n m

  abbrev Keeps : {A : Type 0} → M A → Type 0
  Keeps a = Triple env Same Same a (λ _. Same)

  abbrev Fresh : Snapshot → Type 0
  Fresh = SnapshotFrame.Fresh env key first store n m

  abbrev Made : Created → List Request → Type 0
  Made = SnapshotFrame.Made env key first store n m

  deletion-Keeps : (name ns : String) → Keeps (delete_snapshot name ns)
  unfolding delete_snapshot
  deletion-Keeps name ns = search frames depth 9

  listed-Keeps : (s : Snapshot) (items : List PvSnapshotItem) → Keeps (delete_listed s items)
  unfolding delete_listed
  listed-Keeps s [] = search frames depth 6
  listed-Keeps s (i ∷ items) =
      Triple-if (is_of s i) _ _
        (λ h.
          Frame.loop-Keeps env key first n m (delete_snapshot s.meta.name s.spec.namespace)
            (delete_listed s items) (deletion-Keeps s.meta.name s.spec.namespace)
            (listed-Keeps s items))
        (λ h. listed-Keeps s items)

  shoot-Keeps : (s : Snapshot) → Keeps (delete_shoot_snapshot s)
  unfolding delete_shoot_snapshot
  shoot-Keeps s = search (shoot_frames, listed-Keeps) depth 12

  released-Keeps : (s : Snapshot) → Fresh s → Keeps (save_released s)
  unfolding save_released
  released-Keeps s f = search (frames, then-Saved, save-Saved) depth 9

  -- a change of the finalizers leaves the name
  dropped_then :
      {A : Type 0} (name : String) (o : ObjectMeta) (f : ObjectMeta × Bool → M A)
      → ((fs : List String) (b : Bool) → Keeps (f (record o { finalizers = fs }, b)))
      → Keeps (drop_finalizer name o >>= f)
  unfolding drop_finalizer ◌>>=◌
  dropped_then name o f h = record { at = λ t c. (h _ _).at t c }

  added_then :
      {A : Type 0} (name : String) (o : ObjectMeta) (f : ObjectMeta → M A)
      → ((fs : List String) → Keeps (f (record o { finalizers = fs })))
      → Keeps (add_finalizer name o >>= f)
  unfolding add_finalizer ◌>>=◌
  added_then name o f h = record { at = λ t c. (h _).at t c }

  removed-Keeps : (s : Snapshot) → Fresh s → Keeps (remove_finalizer_and_update s)
  unfolding remove_finalizer_and_update
  removed-Keeps s f = search (dropped_then, released-Keeps) depth 9

  release-Keeps : (s : Snapshot) → Fresh s → Keeps (release_deleted s)
  unfolding release_deleted
  release-Keeps s f = search (dropped_then, Triple-if, pure-Keeps, released-Keeps) depth 9

  finalized-Keeps : (s : Snapshot) → Fresh s → Keeps (delete_snapshot_with_finalizer s)
  unfolding delete_snapshot_with_finalizer
  finalized-Keeps s f = search (frames, shoot-Keeps, release-Keeps) depth 12

  finalize_in-Keeps : (s : Snapshot) (d : Option ℕ) → Fresh s → Keeps (finalize_in s d)
  unfolding finalize_in
  finalize_in-Keeps s d f = search (frames, finalized-Keeps, removed-Keeps) depth 9

  deleted-Keeps : (ns : String) (s : Snapshot) → Fresh s → Keeps (reconcile_deleted ns s)
  unfolding reconcile_deleted
  deleted-Keeps ns s f = search (frames, then-Saved, save_status-Saved, finalize_in-Keeps) depth 14

  initialize-Keeps : (s : Snapshot) → Fresh s → Keeps (initialize s)
  unfolding initialize
  initialize-Keeps s f = search (frames, then-Saved, save_status-Saved) depth 12

  ensure-Keeps : (s : Snapshot) → Fresh s → Keeps (ensure_finalizer s)
  unfolding ensure_finalizer
  ensure-Keeps s f = search (added_then, Triple-unless, pure-Keeps, then-Saved, save-Saved) depth 12

  found-Keeps :
      (ns : String) (s : Snapshot) (cs : List Condition) → Fresh s → Keeps (reconcile_found ns s cs)
  unfolding reconcile_found
  found-Keeps ns s [] f = initialize-Keeps s f
  found-Keeps ns s (c ∷ cs) f = search (frames, live-Keeps, deleted-Keeps) depth 9

  ready_or_new :
      (req : NamespacedName) (s : Snapshot)
      → Fresh s
      → Keeps (do
        held ← has_finalizer snapshot_finalizer_name s.meta
        if held then reconcile_found req.namespace s s.status.conditions else ensure_finalizer s)
  ready_or_new req s f = search (frames, found-Keeps, ensure-Keeps) depth 9

  -- the object that is read is fresh
  read-Post :
      (req : NamespacedName) (t : List Request) (a : Answer Snapshot) (fail : Error → M Reconciled)
      → ((e : Error) → Keeps (fail e))
      → env.answer t (get Kind.snapshot req) ≡ a
      → Same t
      → Post
          (λ _. Same)
          Same
          (check a fail
            (λ s. do
              held ← has_finalizer snapshot_finalizer_name s.meta
              if held
                  then reconcile_found req.namespace s s.status.conditions
                  else ensure_finalizer s)
            env
            (get Kind.snapshot req ∷ t))
  unfolding check
  read-Post req t (ok s) fail h e c =
      (ready_or_new req s (λ at. store.reads t req s e at ∙ c.0)).at (get Kind.snapshot req ∷ t) c
  read-Post req t (err x) fail h e c = (h x).at (get Kind.snapshot req ∷ t) c

  pub reconcile-Keeps : (req : NamespacedName) → Keeps (reconcile req)
  unfolding reconcile call ◌>>=◌
  reconcile-Keeps req = record {
    at = λ t c.
        read-Post req t (env.answer t (get Kind.snapshot req)) _ (λ e. search frames depth 6) refl
          c;
  }
