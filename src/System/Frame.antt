-- ===== src/System/Frame.antt =====
-- Which requests leave the stored count of uses and the created PVCs as they are, and the rules for
-- actions of such requests.
use backup_restore_openstack.Prelude.{ℕ, String, ◌≡◌, Option, some, List, ◌∷◌}
use backup_restore_openstack.Prelude.Int.{ℤ}
use backup_restore_openstack.Types.Meta.{Error, NamespacedName, ObjectMeta, Condition}
use backup_restore_openstack.Effects.{
  Kind, Object, Request, update, update_status, patch, create_pvc, Env, Outcome, done, panicked,
  diverged, M, pure, panic, diverge, asks, settle, save, save_status, has_finalizer, add_finalizer,
  drop_finalizer, set_condition, unless, call, ◌>>=◌,
}
use backup_restore_openstack.Effects.Triple.{
  Triple, Post, Triple-pure, Triple-panic, Triple-bind, Triple-then, Triple-if, Triple-check,
  Triple-unless, Triple-call,
}
use backup_restore_openstack.Restores.Ledger.{count, made, Moves}

-- not a write of a Snapshot's spec, and no creation of a PVC
abbrev pub IsQuiet : Request → Type 0
IsQuiet (update Kind.snapshot o) = ⊥
IsQuiet (patch Kind.snapshot o) = ⊥
IsQuiet (create_pvc ns p) = ⊥
IsQuiet _ = Unit

module _ (env : Env) (key : NamespacedName) (first : ℤ) (n : ℤ) (m : ℕ) where
  abbrev pub Same : List Request → Type 0
  Same t = (count env key first t ≡ n) × (made env t ≡ m) × Moves env key first t

  abbrev pub Keeps : {A : Type 0} → M A → Type 0
  Keeps a = Triple env Same Same a (λ _. Same)

  quiet-Same : (q : Request) (t : List Request) → IsQuiet q → Same t → Same (q ∷ t)
  quiet-Same (update Kind.snapshot o) t h s = absurd h
  quiet-Same (patch Kind.snapshot o) t h s = absurd h
  quiet-Same (create_pvc ns p) t h s = absurd h
  quiet-Same _ t h s = s

  pub call-Keeps : (q : Request) → IsQuiet q → Keeps (call q)
  call-Keeps q h = Triple-call q (λ t s. quiet-Same q t h s)

  pub save-Keeps : (k : Kind) (o : Object k) → IsQuiet (update k o) → Keeps (save k o)
  unfolding save
  save-Keeps k o h = record { at = λ t s. quiet-Same (update k o) t h s }

  pub save_status-Keeps : (k : Kind) (o : Object k) → Keeps (save_status k o)
  unfolding save_status
  save_status-Keeps k o = record { at = λ t s. quiet-Same (update_status k o) t tt s }

  pub pure-Keeps : {A : Type 0} (a : A) → Keeps (pure a)
  pure-Keeps a = Triple-pure a (λ t s. s)

  pub panic-Keeps : {A : Type 0} → Keeps (panic {A = A})
  panic-Keeps = Triple-panic (λ t s. s)

  pub diverge-Keeps : {A : Type 0} → Keeps (diverge {A = A})
  unfolding diverge
  diverge-Keeps = record { at = λ t s. s }

  pub asks-Keeps : {A : Type 0} (f : Env → A) → Keeps (asks f)
  unfolding asks
  asks-Keeps f = record { at = λ t s. s }

  settled :
      {A : Type 0} (r : Outcome A) (t : List Request)
      → Same t
      → Post {A = A} (λ _. Same) Same (r, t)
  settled (done a) t s = s
  settled panicked t s = s
  settled diverged t s = s

  pub settle-Keeps : {A : Type 0} (r : Outcome A) → Keeps (settle r)
  unfolding settle
  settle-Keeps r = record { at = λ t s. settled r t s }

  pub held-Keeps : (name : String) (o : ObjectMeta) → Keeps (has_finalizer name o)
  unfolding has_finalizer
  held-Keeps name o = record { at = λ t s. s }

  pub added-Keeps : (name : String) (o : ObjectMeta) → Keeps (add_finalizer name o)
  unfolding add_finalizer
  added-Keeps name o = record { at = λ t s. s }

  pub dropped-Keeps : (name : String) (o : ObjectMeta) → Keeps (drop_finalizer name o)
  unfolding drop_finalizer
  dropped-Keeps name o = record { at = λ t s. s }

  pub condition-Keeps : (cs : List Condition) (c : Condition) → Keeps (set_condition cs c)
  unfolding set_condition
  condition-Keeps cs c = record { at = λ t s. s }

  -- a loop that the first error ends
  pub loop-Keeps :
      (first_of rest : M (Option Error))
      → Keeps first_of
      → Keeps rest
      → Keeps (first_of >>= λ failed. unless failed (λ e. pure (some e)) rest)
  loop-Keeps first_of rest h k =
      Triple-then first_of _ h
        (λ failed. Triple-unless failed _ _ (λ e p. pure-Keeps (some e)) (λ p. k))

pub ruleset frames = (
  Triple-then, Triple-if, Triple-check, Triple-unless, call-Keeps, save-Keeps, save_status-Keeps,
  pure-Keeps, panic-Keeps, diverge-Keeps, asks-Keeps, settle-Keeps, held-Keeps, added-Keeps,
  dropped-Keeps, condition-Keeps,
)
