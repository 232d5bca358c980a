-- ===== src/Effects/Triple.antt =====
-- Statements about the trace before and after an action, for one environment: from a trace with `I`
-- the action ends with `Q` of its value and the trace, or crashes with `C` of the trace.
use backup_restore_openstack.Prelude.{
  ◌≡◌, refl, Bool, true, false, Option, none, some, List, ◌∷◌, if◌then◌else◌,
}
use backup_restore_openstack.Types.Meta.{Error}
use backup_restore_openstack.Effects.{
  Request, Reply, Answer, ok, err, Env, Outcome, done, panicked, diverged, M, pure, panic, check,
  unless, call, continue, ◌>>=◌,
}

abbrev pub Post :
    {A : Type 0}
    → (A → List Request → Type 0)
    → (List Request → Type 0)
    → Outcome A × List Request
    → Type 0
Post Q C (done a, t) = Q a t
Post Q C (panicked, t) = C t
Post Q C (diverged, t) = C t

pub record Triple {A : Type 0} (env : Env) (C : List Request → Type 0) (I : List Request → Type 0)
    (m : M A) (Q : A → List Request → Type 0) : Type 0 where
  pub at : (t : List Request) → I t → Post Q C (m env t)

module _ {A : Type 0} {env : Env} {C I : List Request → Type 0}
    {Q : A → List Request → Type 0} where
  pub Triple-pure : (a : A) → ((t : List Request) → I t → Q a t) → Triple env C I (pure a) Q
  unfolding pure
  Triple-pure a h = record { at = h }

  pub Triple-panic : ((t : List Request) → I t → C t) → Triple env C I (panic {A = A}) Q
  unfolding panic
  Triple-panic h = record { at = h }

  pub Triple-if :
      (b : Bool) (m n : M A)
      → (b ≡ true → Triple env C I m Q)
      → (b ≡ false → Triple env C I n Q)
      → Triple env C I (if b then m else n) Q
  Triple-if true m n hm hn = hm refl
  Triple-if false m n hm hn = hn refl

  pub Triple-unless :
      (o : Option Error) (fail : Error → M A) (go : M A)
      → ((e : Error) → o ≡ some e → Triple env C I (fail e) Q)
      → (o ≡ none → Triple env C I go Q)
      → Triple env C I (unless o fail go) Q
  unfolding unless
  Triple-unless none fail go hf hg = hg refl
  Triple-unless (some e) fail go hf hg = hf e refl

pub Triple-call :
    {env : Env} {C I : List Request → Type 0} (q : Request) {Q : Reply q → List Request → Type 0}
    → ((t : List Request) → I t → Q (env.answer t q) (q ∷ t))
    → Triple env C I (call q) Q
unfolding call
Triple-call q h = record { at = h }

module _ {A B : Type 0} {env : Env} {C : List Request → Type 0} where
  continues :
      {Q : A → List Request → Type 0} {R : B → List Request → Type 0} (f : A → M B) (r : Outcome A)
      (t : List Request)
      → ((a : A) → Triple env C (Q a) (f a) R)
      → Post Q C (r, t)
      → Post R C (continue r f env t)
  continues f (done a) t hf h = (hf a).at t h
  continues f panicked t hf h = h
  continues f diverged t hf h = h

module _ {A B : Type 0} {env : Env} {C I : List Request → Type 0} where
  pub Triple-check :
      {Q : B → List Request → Type 0} (r : Answer A) (fail : Error → M B) (go : A → M B)
      → ((e : Error) → r ≡ err e → Triple env C I (fail e) Q)
      → ((a : A) → r ≡ ok a → Triple env C I (go a) Q)
      → Triple env C I (check r fail go) Q
  unfolding check
  Triple-check (ok a) fail go hf hg = hg a refl
  Triple-check (err e) fail go hf hg = hf e refl

  pub Triple-bind :
      {Q : A → List Request → Type 0} {R : B → List Request → Type 0} (m : M A) (f : A → M B)
      → Triple env C I m Q
      → ((a : A) → Triple env C (Q a) (f a) R)
      → Triple env C I (m >>= f) R
  unfolding ◌>>=◌
  Triple-bind {Q = Q} m f hm hf = record {
    at = λ t h. let (r, t') = m env t in continues {Q = Q} f r t' hf (hm.at t h);
  }

  -- the rule for a first step that keeps what holds
  pub Triple-then :
      {R : B → List Request → Type 0} (m : M A) (f : A → M B)
      → Triple env C I m (λ _. I)
      → ((a : A) → Triple env C I (f a) R)
      → Triple env C I (m >>= f) R
  Triple-then m f hm hf = Triple-bind m f hm hf

weaken-Post :
    {A : Type 0} (Q R : A → List Request → Type 0) (C : List Request → Type 0)
    (r : Outcome A × List Request)
    → ((a : A) (t : List Request) → Q a t → R a t)
    → Post Q C r
    → Post R C r
weaken-Post Q R C (done a, t) h p = h a t p
weaken-Post Q R C (panicked, t) h p = p
weaken-Post Q R C (diverged, t) h p = p

module _ {A : Type 0} {env : Env} {C I : List Request → Type 0}
    {Q R : A → List Request → Type 0} where
  -- the rule of consequence, on the side of the result
  pub Triple-weaken :
      (m : M A)
      → ((a : A) (t : List Request) → Q a t → R a t)
      → Triple env C I m Q
      → Triple env C I m R
  Triple-weaken m h k = record { at = λ t i. weaken-Post Q R C (m env t) h (k.at t i) }

-- what holds of the trace on every outcome
pub trace_of :
    {A : Type 0} (I : List Request → Type 0) (r : Outcome A × List Request)
    → Post (λ _. I) I r
    → I r.1
trace_of I (done a, t) h = h
trace_of I (panicked, t) h = h
trace_of I (diverged, t) h = h
