-- ===== src/Effects/Returns.antt =====
-- What an action returns: a predicate that every value it returns satisfies, whatever the answers
-- are, with one rule for each way to build an action. A panic returns nothing.
use backup_restore_openstack.Prelude.{
  ◌≡◌, refl, Bool, true, false, Option, none, some, List, if◌then◌else◌,
}
use backup_restore_openstack.Types.Meta.{Error}
use backup_restore_openstack.Effects.{
  Request, Answer, ok, err, Env, Outcome, done, panicked, diverged, M, pure, panic, check, unless,
  continue, ◌>>=◌,
}

abbrev pub Done : {A : Type 0} → (A → Type 0) → Outcome A → Type 0
Done Q (done a) = Q a
Done Q panicked = Unit
Done Q diverged = Unit

pub record Returns {A : Type 0} (Q : A → Type 0) (m : M A) : Type 0 where
  pub at : (env : Env) (t : List Request) → Done Q (m env t).0

module _ {A : Type 0} (Q : A → Type 0) where
  pub Returns-pure : (a : A) → Q a → Returns Q (pure a)
  unfolding pure
  Returns-pure a q = record { at = λ env t. q }

  pub Returns-panic : Returns Q panic
  unfolding panic
  Returns-panic = record { at = λ env t. tt }

  pub Returns-if :
      (b : Bool) (m n : M A)
      → (b ≡ true → Returns Q m)
      → (b ≡ false → Returns Q n)
      → Returns Q (if b then m else n)
  Returns-if true m n hm hn = hm refl
  Returns-if false m n hm hn = hn refl

  pub Returns-unless :
      (o : Option Error) (fail : Error → M A) (go : M A)
      → ((e : Error) → o ≡ some e → Returns Q (fail e))
      → (o ≡ none → Returns Q go)
      → Returns Q (unless o fail go)
  unfolding unless
  Returns-unless none fail go hf hg = hg refl
  Returns-unless (some e) fail go hf hg = hf e refl

module _ {A B : Type 0} (Q : B → Type 0) where
  pub Returns-check :
      (r : Answer A) (fail : Error → M B) (go : A → M B)
      → ((e : Error) → r ≡ err e → Returns Q (fail e))
      → ((a : A) → r ≡ ok a → Returns Q (go a))
      → Returns Q (check r fail go)
  unfolding check
  Returns-check (ok a) fail go hf hg = hg a refl
  Returns-check (err e) fail go hf hg = hf e refl

  continues :
      (r : Outcome A) (f : A → M B) (env : Env) (t : List Request)
      → ((a : A) → Returns Q (f a))
      → Done Q (continue r f env t).0
  continues (done a) f env t hf = (hf a).at env t
  continues panicked f env t hf = tt
  continues diverged f env t hf = tt

  pub Returns-bind : (m : M A) (f : A → M B) → ((a : A) → Returns Q (f a)) → Returns Q (m >>= f)
  unfolding ◌>>=◌
  Returns-bind m f hf = record { at = λ env t. let (r, t') = m env t in continues r f env t' hf }

pub ruleset returns_rules =
    (Returns-pure, Returns-panic, Returns-if, Returns-unless, Returns-check, Returns-bind)
