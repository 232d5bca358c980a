-- ===== src/Restores/Ledger/Steps.antt =====
-- restorepvc_controller.go: a count that is written is one step from the count that is stored.
use backup_restore_openstack.Prelude.{
  ℕ, ◌+◌, ◌≤◌, sym, ◌≡◌, ◌∙◌, ap, refl, Bool, true, false, ◌&&◌, Option, none, some, List, ◌∷◌, inl,
  inr, Bool-cases, if◌then◌else◌, arith,
}
use backup_restore_openstack.Prelude.Int.{ℤ, pos, negsuc, ◌+ℤ◌, leb_ℤ, wrap}
use backup_restore_openstack.Types.Meta.{Error, NamespacedName, is_not_found}
use backup_restore_openstack.Types.Snapshot.{Snapshot}
use backup_restore_openstack.Types.Restore.{RestorePvc}
use backup_restore_openstack.Effects.{
  Kind, Request, get, update, Answer, ok, err, Env, M, pure, check, call, ◌>>=◌,
}
use backup_restore_openstack.Effects.Triple.{
  Triple, Post, Triple-bind, Triple-pure, Triple-if, Triple-check, Triple-call,
}
use backup_restore_openstack.Restores.Ledger.{
  UseStep, taken, returned, Uses, next, cost, takes, is_at, accepted, count, made, Moves, IsStore,
}
use backup_restore_openstack.Restores.InUse.{
  snapshot_key, with_use, write_use, update_increase_in_use_snapshot,
  update_decrease_in_use_snapshot,
}

pub and_right : (a b : Bool) → a && b ≡ true → b ≡ true
and_right a b h = ground (arith, h)

module _ (env : Env) (key : NamespacedName) (first : ℤ) (store : IsStore env key first) where
  -- the count is a run of the abstract count, with `n` PVCs that no use was taken for yet
  abbrev pub Spare : ℕ → List Request → Type 0
  Spare n t =
      (m : ℤ) × (u : Uses first m) × (m ≡ count env key first t)
      × (n + takes u ≤ made env t)
      × Moves env key first t

  abbrev pub Keeps : {A : Type 0} → M A → Type 0
  Keeps m = Triple env (Spare 0) (Spare 0) m (λ _. Spare 0)

  -- a write of the count that was read, as a step that needs `n` PVCs
  written-Spare :
      (t : List Request) (k : NamespacedName) (s : Snapshot) (n : ℕ) (d : ℤ)
      → env.answer t (get Kind.snapshot k) ≡ ok s
      → (step : (m : ℤ) → s.spec.num_in_use ≡ m → UseStep m (wrap 64 (s.spec.num_in_use +ℤ d)))
      → ((m : ℤ) (e : s.spec.num_in_use ≡ m) → cost (step m e) ≤ n)
      → Spare n t
      → Spare 0 (update Kind.snapshot (with_use d s) ∷ get Kind.snapshot k ∷ t)
  written-Spare t k s n d h step c (m, u, e, l, v) =
      let asked = update Kind.snapshot (with_use d s) in
      let before = get Kind.snapshot k ∷ t in
      let took = accepted {A = Snapshot} (env.answer before asked) in
      elim (Bool-cases (took && is_at key s.meta)) [
        | inl stores ↦
            let read = store.reads t k s h (and_right took (is_at key s.meta) stores) ∙ sym e in
            rw stores (
              _,
              next u (step m read),
              refl,
              omega (arith, c m read),
              ((λ _. inr (step _ (read ∙ e))), v),
            )
        | inr ignored ↦ rw ignored (m, u, e, omega arith, ((λ h. cc), v))
      ]

  pub stops : {A : Type 0} (a : A) → Keeps (pure a)
  stops a = Triple-pure a (λ t i. i)

  pub stop-Spare : {A : Type 0} (a : A) → Triple env (Spare 0) (Spare 1) (pure a) (λ _. Spare 0)
  stop-Spare a = Triple-pure a (λ t (m, u, e, l, v). (m, u, e, omega arith, v))

  module _ (n : ℕ) (k : NamespacedName) (fail : Error → M (Option Error))
      (go : Snapshot → M (Option Error))
      (failed : (e : Error) → Triple env (Spare 0) (Spare n) (fail e) (λ _. Spare 0))
      (went : (t : List Request) (s : Snapshot)
        → env.answer t (get Kind.snapshot k) ≡ ok s
        → Spare n t
        → Post (λ _. Spare 0) (Spare 0) (go s env (get Kind.snapshot k ∷ t))) where
    -- an action after the Snapshot was read: it may rely on what the server answered
    read-Post :
        (t : List Request) (a : Answer Snapshot)
        → env.answer t (get Kind.snapshot k) ≡ a
        → Spare n t
        → Post (λ _. Spare 0) (Spare 0) (check a fail go env (get Kind.snapshot k ∷ t))
    unfolding check
    read-Post t (ok s) e i = went t s e i
    read-Post t (err x) e i = (failed x).at (get Kind.snapshot k ∷ t) i

    read-Keeps :
        Triple env
          (Spare 0)
          (Spare n)
          (call (get Kind.snapshot k) >>= λ got. check got fail go)
          (λ _. Spare 0)
    unfolding call ◌>>=◌
    read-Keeps = record { at = λ t i. read-Post t (env.answer t (get Kind.snapshot k)) refl i }

  -- the count is written: what holds after the request holds, whatever is answered
  write_use-Spare :
      (s : Snapshot)
      → Triple env
          (Spare 0)
          (λ u. Spare 0 (update Kind.snapshot s ∷ u))
          (write_use s)
          (λ _. Spare 0)
  unfolding write_use
  write_use-Spare s =
      Triple-bind {Q = λ _. Spare 0} (call (update Kind.snapshot s)) _
        (Triple-call (update Kind.snapshot s) (λ t i. i))
        (λ updated. Triple-check updated _ _ (λ e h. stops _) (λ _ h. stops none))

  pub increase-Spare :
      (r : RestorePvc)
      → Triple env (Spare 0) (Spare 1) (update_increase_in_use_snapshot r) (λ _. Spare 0)
  unfolding update_increase_in_use_snapshot
  increase-Spare r =
      read-Keeps 1 (snapshot_key r) _ _ (λ e. stop-Spare _)
        (λ t s h i.
          (write_use-Spare (with_use (pos 1) s)).at (get Kind.snapshot (snapshot_key r) ∷ t) (
            written-Spare t (snapshot_key r) s 1 (pos 1) h
              (λ m e. taken (ap (λ x. wrap 64 (x +ℤ pos 1)) e)) (λ m e. omega arith) i))

  lower :
      (t : List Request) (k : NamespacedName) (s : Snapshot)
      → env.answer t (get Kind.snapshot k) ≡ ok s
      → Spare 0 t
      → (b : Bool) → leb_ℤ s.spec.num_in_use (pos 0) ≡ b
      → Post
          (λ _. Spare 0)
          (Spare 0)
          ((if b then pure none else write_use (with_use (negsuc 0) s)) env
            (get Kind.snapshot k ∷ t))
  lower t k s h i true e = (stops none).at (get Kind.snapshot k ∷ t) i
  lower t k s h i false e = (write_use-Spare (with_use (negsuc 0) s)).at (get Kind.snapshot k ∷ t) (
      written-Spare t k s 0 (negsuc 0) h
        (λ m p.
          returned (ap (λ x. leb_ℤ x (pos 0)) (sym p) ∙ e) (ap (λ x. wrap 64 (x +ℤ negsuc 0)) p))
        (λ m p. omega arith) i)

  pub decrease-Keeps : (r : RestorePvc) → Keeps (update_decrease_in_use_snapshot r)
  unfolding update_decrease_in_use_snapshot
  decrease-Keeps r =
      read-Keeps 0 (snapshot_key r) _ _
        (λ e. Triple-if (is_not_found e) _ _ (λ h. stops none) (λ h. stops (some e)))
        (λ t s h i. lower t (snapshot_key r) s h i _ refl)
