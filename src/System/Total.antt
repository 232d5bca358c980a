-- ===== src/System/Total.antt =====
-- All controllers: rounds that return, whatever happens. The rules for actions that neither panic nor
-- loop.
pub mod Shoot
pub mod Kube
pub mod Snapshot
pub mod Restore
pub mod Sync
pub mod Pvc
pub mod PvSnapshot
pub mod Retention
pub mod Schedule
pub mod Scheduler
pub mod Laws
use backup_restore_openstack.Prelude.{String, Option, none, some, List, ◌≡◌, ◌≢◌, refl}
use backup_restore_openstack.Types.Meta.{NamespacedName, Error, ObjectMeta, Condition}
use backup_restore_openstack.Effects.{
  get, ok, check, Kind, Object, Request, Env, Outcome, done, panicked, diverged, M, pure, asks,
  save, save_status, has_finalizer, add_finalizer, drop_finalizer, set_condition, unless, call,
  ◌>>=◌,
}
use backup_restore_openstack.Utils.Strings.{slice_from}
use backup_restore_openstack.Utils.Shoot.{deref}
use backup_restore_openstack.Effects.Triple.{
  Triple, Post, Triple-pure, Triple-bind, Triple-then, Triple-if, Triple-check, Triple-unless,
  Triple-call,
}

-- The namespace has the four characters in front of the cluster's name, which the code cuts off.
abbrev pub HasCluster : ObjectMeta → Type 0
HasCluster m = slice_from m.namespace 4 ≢ none

module _ (env : Env) where
  abbrev pub Never : List Request → Type 0
  Never t = ⊥

  abbrev pub Always : List Request → Type 0
  Always t = Unit

  abbrev pub IsTotal : {A : Type 0} → M A → Type 0
  IsTotal a = Triple env Never Always a (λ _. Always)

  pub call-IsTotal : (q : Request) → IsTotal (call q)
  call-IsTotal q = Triple-call q (λ t s. tt)

  pub save-IsTotal : (k : Kind) (o : Object k) → IsTotal (save k o)
  unfolding save
  save-IsTotal k o = record { at = λ t s. tt }

  pub save_status-IsTotal : (k : Kind) (o : Object k) → IsTotal (save_status k o)
  unfolding save_status
  save_status-IsTotal k o = record { at = λ t s. tt }

  pub pure-IsTotal : {A : Type 0} (a : A) → IsTotal (pure a)
  pure-IsTotal a = Triple-pure a (λ t s. tt)

  pub asks-IsTotal : {A : Type 0} (f : Env → A) → IsTotal (asks f)
  unfolding asks
  asks-IsTotal f = record { at = λ t s. tt }

  -- a value of a library, put in place
  pub asked-IsTotal :
      {A B : Type 0} (f : Env → A) (go : A → M B) → IsTotal (go (f env)) → IsTotal (asks f >>= go)
  unfolding asks ◌>>=◌
  asked-IsTotal f go h = record { at = λ t s. h.at t s }

  pub held-IsTotal : (name : String) (o : ObjectMeta) → IsTotal (has_finalizer name o)
  unfolding has_finalizer
  held-IsTotal name o = record { at = λ t s. tt }

  pub added-IsTotal : (name : String) (o : ObjectMeta) → IsTotal (add_finalizer name o)
  unfolding add_finalizer
  added-IsTotal name o = record { at = λ t s. tt }

  pub dropped-IsTotal : (name : String) (o : ObjectMeta) → IsTotal (drop_finalizer name o)
  unfolding drop_finalizer
  dropped-IsTotal name o = record { at = λ t s. tt }

  pub condition-IsTotal : (cs : List Condition) (c : Condition) → IsTotal (set_condition cs c)
  unfolding set_condition
  condition-IsTotal cs c = record { at = λ t s. tt }

  -- a loop that the first error ends
  pub loop-IsTotal :
      (first_of rest : M (Option Error))
      → IsTotal first_of
      → IsTotal rest
      → IsTotal (first_of >>= λ failed. unless failed (λ e. pure (some e)) rest)
  loop-IsTotal first_of rest h k =
      Triple-then first_of _ h
        (λ failed. Triple-unless failed _ _ (λ e p. pure-IsTotal (some e)) (λ p. k))

  -- every object of a kind that is read satisfies P
  abbrev pub AllRead : (k : Kind) → (Object k → Type 0) → Type 0
  AllRead k P =
      (t : List Request) (name : NamespacedName) (o : Object k)
      → env.answer t (get k name) ≡ ok o
      → P o

  -- to go on with an object that is read
  pub read-IsTotal :
      (k : Kind) (P : Object k → Type 0)
      → AllRead k P
      → {B : Type 0} (name : NamespacedName) (fail : Error → M B) (go : Object k → M B)
      → ((e : Error) → IsTotal (fail e))
      → ((o : Object k) → P o → IsTotal (go o))
      → IsTotal (do got ← call (get k name); check got fail go)
  read-IsTotal k P sound name fail go hf hg =
      Triple-bind {Q = λ got _. (o : Object k) → got ≡ ok o → P o} (call (get k name)) _
        (Triple-call (get k name) (λ t s. sound t name))
        (λ got.
          Triple-check got fail go (λ e h. record { at = λ t f. (hf e).at t tt })
            (λ o h. record { at = λ t f. (hg o (f o h)).at t tt }))

  pub deref-IsTotal :
      {A : Type 0} (q : Option String) (go : String → M A)
      → q ≢ none
      → ((s : String) → IsTotal (go s))
      → IsTotal (deref q go)
  deref-IsTotal none go n h = absurd (n refl)
  deref-IsTotal (some s) go n h = h s

  done-of :
      {A : Type 0} (r : Outcome A × List Request)
      → Post (λ _. Always) Never r
      → (a : A) × (r.0 ≡ done a)
  done-of (done a, t) h = (a, refl)
  done-of (panicked, t) h = absurd h
  done-of (diverged, t) h = absurd h

  -- a total action returns a value
  pub total-result :
      {A : Type 0} (a : M A) → IsTotal a → (t : List Request) → (r : A) × ((a env t).0 ≡ done r)
  total-result a h t = done-of (a env t) (h.at t tt)

pub ruleset totals = (
  Triple-then, Triple-if, Triple-check, Triple-unless, call-IsTotal, save-IsTotal,
  save_status-IsTotal, pure-IsTotal, asks-IsTotal, held-IsTotal, added-IsTotal, dropped-IsTotal,
  condition-IsTotal,
)
