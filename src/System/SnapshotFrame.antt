-- ===== src/System/SnapshotFrame.antt =====
-- snapshot_controller.go: writes of a Snapshot that was read.
use backup_restore_openstack.Prelude.{
  ℕ, ◌≡◌, ◌∙◌, sym, refl, true, ◌&&◌, Option, none, some, List, ◌∷◌, inl, inr, Bool-cases,
}
use backup_restore_openstack.Prelude.Int.{ℤ}
use backup_restore_openstack.Types.Meta.{Error, NamespacedName}
use backup_restore_openstack.Types.Snapshot.{Snapshot, SnapshotStatus, PvSnapshotItem}
use backup_restore_openstack.Effects.{
  Kind, Request, update, update_status, Answer, ok, err, filled, Env, M, pure, save, save_status,
  ◌>>=◌,
}
use backup_restore_openstack.Effects.Triple.{
  Triple, Triple-pure, Triple-bind, Triple-if, Triple-unless,
}
use backup_restore_openstack.Snapshots.Create.{Created, created, accept_item, accept_or}
use backup_restore_openstack.Snapshots.Status.{commit_if_changed, update_snapshot_status}
use backup_restore_openstack.Restores.Ledger.{is_at, accepted, IsStore}
use backup_restore_openstack.Restores.Ledger.Steps.{and_right}
use backup_restore_openstack.System.Frame
use backup_restore_openstack.System.Frame.{frames, call-Keeps}

module _ (env : Env) (key : NamespacedName) (first : ℤ) (store : IsStore env key first) (n : ℤ)
    (m : ℕ) where
  abbrev Same : List Request → Type 0
  Same = Frame.Same env key first n m

  abbrev Keeps : {A : Type 0} → M A → Type 0
  Keeps a = Triple env Same Same a (λ _. Same)

  -- an object whose count is the one that is stored
  abbrev pub Fresh : Snapshot → Type 0
  Fresh s = is_at key s.meta ≡ true → s.spec.num_in_use ≡ n

  written-Same :
      (t : List Request) (s : Snapshot) → Fresh s → Same t → Same (update Kind.snapshot s ∷ t)
  written-Same t s f (c, p, v) =
      let took = accepted {A = Snapshot} (env.answer t (update Kind.snapshot s)) in
      elim (Bool-cases (took && is_at key s.meta)) [
        | inl stores ↦
            let same = f (and_right took (is_at key s.meta) stores) in
            rw stores (same, p, ((λ _. inl (same ∙ sym c)), v))
        | inr ignored ↦ rw ignored (c, p, ((λ h. cc), v))
      ]

  filled-Fresh :
      (t : List Request) (s : Snapshot) (a : Answer Snapshot)
      → env.answer t (update Kind.snapshot s) ≡ a
      → Fresh s
      → Same (update Kind.snapshot s ∷ t)
      → Fresh (filled s a).0
  filled-Fresh t s (ok o) e f (c, p, v) = λ at. store.writes t s o e at ∙ c
  filled-Fresh t s (err x) e f c = f

  status-Fresh :
      (t : List Request) (s : Snapshot) (a : Answer Snapshot)
      → env.answer t (update_status Kind.snapshot s) ≡ a
      → Fresh s
      → Same t
      → Fresh (filled s a).0
  status-Fresh t s (ok o) e f (c, p, v) = λ at. store.status_writes t s o e at ∙ c
  status-Fresh t s (err x) e f c = f

  -- what is returned besides the trace: a fresh object
  abbrev pub Saved : Snapshot × Option Error → List Request → Type 0
  Saved r t = Same t × Fresh r.0

  pub save-Saved : (s : Snapshot) → Fresh s → Triple env Same Same (save Kind.snapshot s) Saved
  unfolding save
  save-Saved s f = record {
    at = λ t c.
        let after = written-Same t s f c in
        (after, filled-Fresh t s (env.answer t (update Kind.snapshot s)) refl f after);
  }

  pub save_status-Saved :
      (s : Snapshot) → Fresh s → Triple env Same Same (save_status Kind.snapshot s) Saved
  unfolding save_status
  save_status-Saved s f = record {
    at = λ t c. (c, status-Fresh t s (env.answer t (update_status Kind.snapshot s)) refl f c);
  }

  pub pure-Saved :
      (s : Snapshot) (e : Option Error) → Fresh s → Triple env Same Same (pure (s, e)) Saved
  pure-Saved s e f = Triple-pure (s, e) (λ t c. (c, f))

  -- to go on with a fresh object
  pub then-Saved :
      {B : Type 0} {R : B → List Request → Type 0} (a : M (Snapshot × Option Error))
      (f : Snapshot × Option Error → M B)
      → Triple env Same Same a Saved
      → ((s : Snapshot) (e : Option Error) → Fresh s → Triple env Same Same (f (s, e)) R)
      → Triple env Same Same (a >>= f) R
  then-Saved a f ha hf =
      Triple-bind {Q = Saved} a f ha (λ r. record { at = λ t c. (hf r.0 r.1 c.1).at t c.0 })

  pub commit-Saved :
      (s : Snapshot) (new : SnapshotStatus)
      → Fresh s
      → Triple env Same Same (commit_if_changed s new) Saved
  unfolding commit_if_changed
  commit-Saved s new f = search (Triple-if, pure-Saved, save_status-Saved) depth 6

  pub update-Saved :
      (s : Snapshot) (new : SnapshotStatus)
      → Fresh s
      → Triple env Same Same (update_snapshot_status s new) Saved
  unfolding update_snapshot_status
  update-Saved s new f =
      then-Saved (commit_if_changed s new) _ (commit-Saved s new f)
        (λ o e g. search (Triple-unless, pure-Saved) depth 6)

  abbrev pub Made : Created → List Request → Type 0
  Made c t = Same t × Fresh c.object

  pub pure-Made :
      (s : Snapshot) (i : PvSnapshotItem) (e : Option Error)
      → Fresh s
      → Triple env Same Same (pure (created s i e)) Made
  pure-Made s i e f = Triple-pure (created s i e) (λ t c. (c, f))

  accept-Made :
      (s : Snapshot) (i : PvSnapshotItem) → Fresh s → Triple env Same Same (accept_item s i) Made
  unfolding accept_item
  accept-Made s i f = search (Triple-if, Triple-unless, then-Saved, save-Saved, pure-Made) depth 9

  pub or-Made :
      (s : Snapshot) (other : M Created) (o : Option PvSnapshotItem)
      → Fresh s
      → Triple env Same Same other Made
      → Triple env Same Same (accept_or s other o) Made
  unfolding accept_or
  or-Made s other none f h = h
  or-Made s other (some i) f h = accept-Made s i f
