-- ===== src/Effects/Trace.antt =====
-- Which requests an action makes: a predicate on requests that every request of its trace satisfies,
-- with one rule for each way to build an action.
use backup_restore_openstack.Prelude.{
  String, ◌≡◌, refl, Bool, true, false, Option, none, some, List, [], ◌∷◌, if◌then◌else◌,
}
use backup_restore_openstack.Types.Meta.{Error, ObjectMeta, Condition}
use backup_restore_openstack.Effects.{
  Kind, Object, Request, update, update_status, save, save_status, has_finalizer, add_finalizer,
  drop_finalizer, set_condition, Answer, ok, err, Env, Outcome, done, panicked, diverged, M, pure,
  panic, diverge, asks, settle, check, unless, call, continue, ◌>>=◌,
}

abbrev pub All {ℓ κ} : {A : Type ℓ} → (A → Type κ) → List A → Type κ
All P [] = Unit
All P (x ∷ xs) = P x × All P xs

-- `m` adds to the trace only requests with `P`, whatever the answers are.
pub record Issues {A : Type 0} (P : Request → Type 0) (m : M A) : Type 0 where
  pub at : (env : Env) (t : List Request) → All P t → All P (m env t).1

module _ {A : Type 0} {P : Request → Type 0} where
  pub Issues-pure : (a : A) → Issues P (pure a)
  unfolding pure
  Issues-pure a = record { at = λ env t h. h }

  pub Issues-panic : Issues P (panic {A = A})
  unfolding panic
  Issues-panic = record { at = λ env t h. h }

  pub Issues-diverge : Issues P (diverge {A = A})
  unfolding diverge
  Issues-diverge = record { at = λ env t h. h }

  pub Issues-asks : (f : Env → A) → Issues P (asks f)
  unfolding asks
  Issues-asks f = record { at = λ env t h. h }

  pub Issues-settle : (r : Outcome A) → Issues P (settle r)
  unfolding settle
  Issues-settle r = record { at = λ env t h. h }

  pub Issues-if :
      (b : Bool) (m n : M A)
      → (b ≡ true → Issues P m)
      → (b ≡ false → Issues P n)
      → Issues P (if b then m else n)
  Issues-if true m n hm hn = hm refl
  Issues-if false m n hm hn = hn refl

pub Issues-call : {P : Request → Type 0} (q : Request) → P q → Issues P (call q)
unfolding call
Issues-call q p = record { at = λ env t h. (p, h) }

pub Issues-unless :
    {B : Type 0} {P : Request → Type 0} (o : Option Error) (fail : Error → M B) (go : M B)
    → ((e : Error) → Issues P (fail e))
    → Issues P go
    → Issues P (unless o fail go)
unfolding unless
Issues-unless none fail go hf hg = hg
Issues-unless (some e) fail go hf hg = hf e

module _ {P : Request → Type 0} where
  pub Issues-save : (k : Kind) (o : Object k) → P (update k o) → Issues P (save k o)
  unfolding save
  Issues-save k o p = record { at = λ env t h. (p, h) }

  pub Issues-save_status :
      (k : Kind) (o : Object k) → P (update_status k o) → Issues P (save_status k o)
  unfolding save_status
  Issues-save_status k o p = record { at = λ env t h. (p, h) }

  pub Issues-has_finalizer : (name : String) (m : ObjectMeta) → Issues P (has_finalizer name m)
  unfolding has_finalizer
  Issues-has_finalizer name m = record { at = λ env t h. h }

  pub Issues-add_finalizer : (name : String) (m : ObjectMeta) → Issues P (add_finalizer name m)
  unfolding add_finalizer
  Issues-add_finalizer name m = record { at = λ env t h. h }

  pub Issues-drop_finalizer : (name : String) (m : ObjectMeta) → Issues P (drop_finalizer name m)
  unfolding drop_finalizer
  Issues-drop_finalizer name m = record { at = λ env t h. h }

  pub Issues-set_condition : (cs : List Condition) (c : Condition) → Issues P (set_condition cs c)
  unfolding set_condition
  Issues-set_condition cs c = record { at = λ env t h. h }

module _ {A B : Type 0} {P : Request → Type 0} where
  pub Issues-check :
      (r : Answer A) (fail : Error → M B) (go : A → M B)
      → ((e : Error) → r ≡ err e → Issues P (fail e))
      → ((a : A) → r ≡ ok a → Issues P (go a))
      → Issues P (check r fail go)
  unfolding check
  Issues-check (ok a) fail go hf hg = hg a refl
  Issues-check (err e) fail go hf hg = hf e refl

  continues :
      (r : Outcome A) (f : A → M B) (env : Env) (t : List Request)
      → ((a : A) → Issues P (f a))
      → All P t
      → All P (continue r f env t).1
  continues (done a) f env t hf h = (hf a).at env t h
  continues panicked f env t hf h = h
  continues diverged f env t hf h = h

  pub Issues-bind :
      (m : M A) (f : A → M B) → Issues P m → ((a : A) → Issues P (f a)) → Issues P (m >>= f)
  unfolding ◌>>=◌
  Issues-bind m f hm hf = record {
    at = λ env t h. let (r, t') = m env t in continues r f env t' hf (hm.at env t h);
  }

pub ruleset issues_rules = (
  Issues-pure, Issues-panic, Issues-diverge, Issues-asks, Issues-settle, Issues-if, Issues-call,
  Issues-check, Issues-unless, Issues-bind, Issues-save, Issues-save_status, Issues-has_finalizer,
  Issues-add_finalizer, Issues-drop_finalizer, Issues-set_condition,
)
