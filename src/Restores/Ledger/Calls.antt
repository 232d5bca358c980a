-- ===== src/Restores/Ledger/Calls.antt =====
-- The requests of the RestorePvc controller that leave the count of uses as it is.
use backup_restore_openstack.Prelude.{ℕ, String, Option, none, some, List}
use backup_restore_openstack.Prelude.Int.{ℤ}
use backup_restore_openstack.Types.Meta.{NamespacedName, ObjectMeta, Condition}
use backup_restore_openstack.Types.Restore.{RestorePvc}
use backup_restore_openstack.Effects.{
  Kind, Request, get, list, list_pvcs, connect, Env, M, pure, asks, save, save_status,
  has_finalizer, add_finalizer, drop_finalizer, set_condition, call,
}
use backup_restore_openstack.Effects.Triple.{
  Triple, Post, trace_of, Triple-bind, Triple-panic, Triple-then, Triple-if, Triple-check,
  Triple-unless, Triple-call,
}
use backup_restore_openstack.Utils.Kubeconfig.{get_secret_shoot_integrated_kubeconfig}
use backup_restore_openstack.Restores.InUse.{update_decrease_in_use_snapshot}
use backup_restore_openstack.Restores.Restore.{Restored, known_or_none}
use backup_restore_openstack.Restores.Ledger.{IsStore}
use backup_restore_openstack.Restores.Ledger.Steps

module _ (env : Env) (key : NamespacedName) (first : ℤ) (store : IsStore env key first) where
  abbrev Spare : ℕ → List Request → Type 0
  Spare = Steps.Spare env key first store

  abbrev Keeps : {A : Type 0} → M A → Type 0
  Keeps m = Triple env (Spare 0) (Spare 0) m (λ _. Spare 0)

  pub stops : {A : Type 0} (a : A) → Keeps (pure a)
  stops = Steps.stops env key first store

  pub decrease-Keeps : (r : RestorePvc) → Keeps (update_decrease_in_use_snapshot r)
  decrease-Keeps = Steps.decrease-Keeps env key first store

  pub secrets-Keeps :
      (ns : String) (labels : List (String × String)) → Keeps (call (list Kind.secret ns labels))
  secrets-Keeps ns labels = Triple-call (list Kind.secret ns labels) (λ t i. i)

  pub secret-Keeps : (k : NamespacedName) → Keeps (call (get Kind.secret k))
  secret-Keeps k = Triple-call (get Kind.secret k) (λ t i. i)

  pub kubeconfig-Keeps : (ns : String) → Keeps (get_secret_shoot_integrated_kubeconfig ns)
  unfolding get_secret_shoot_integrated_kubeconfig
  kubeconfig-Keeps ns =
      search (Triple-then, Triple-check, stops, secrets-Keeps, secret-Keeps) depth 16

  pub asks-Keeps : {A : Type 0} (f : Env → A) → Keeps (asks f)
  unfolding asks
  asks-Keeps f = record { at = λ t i. i }

  pub connect-Keeps : (config cluster : String) → Keeps (call (connect config cluster))
  connect-Keeps config cluster = Triple-call (connect config cluster) (λ t i. i)

  pub listing-Keeps : (ns : String) → Keeps (call (list_pvcs ns))
  listing-Keeps ns = Triple-call (list_pvcs ns) (λ t i. i)

  pub object-Keeps : (k : NamespacedName) → Keeps (call (get Kind.restore_pvc k))
  object-Keeps k = Triple-call (get Kind.restore_pvc k) (λ t i. i)

  pub namespace-Keeps : (k : NamespacedName) → Keeps (call (get Kind.namespace k))
  namespace-Keeps k = Triple-call (get Kind.namespace k) (λ t i. i)

  pub save-Keeps : (r : RestorePvc) → Keeps (save Kind.restore_pvc r)
  unfolding save
  save-Keeps r = record { at = λ t i. i }

  pub save_status-Keeps : (r : RestorePvc) → Keeps (save_status Kind.restore_pvc r)
  unfolding save_status
  save_status-Keeps r = record { at = λ t i. i }

  pub held-Keeps : (name : String) (m : ObjectMeta) → Keeps (has_finalizer name m)
  unfolding has_finalizer
  held-Keeps name m = record { at = λ t i. i }

  pub added-Keeps : (name : String) (m : ObjectMeta) → Keeps (add_finalizer name m)
  unfolding add_finalizer
  added-Keeps name m = record { at = λ t i. i }

  pub dropped-Keeps : (name : String) (m : ObjectMeta) → Keeps (drop_finalizer name m)
  unfolding drop_finalizer
  dropped-Keeps name m = record { at = λ t i. i }

  pub condition-Keeps : (cs : List Condition) (c : Condition) → Keeps (set_condition cs c)
  unfolding set_condition
  condition-Keeps cs c = record { at = λ t i. i }

  pub known-Keeps :
      (q : Option String) (go : String → M Restored)
      → ((s : String) → Keeps (go s))
      → Keeps (known_or_none q go)
  known-Keeps none go h = Triple-panic (λ t i. i)
  known-Keeps (some s) go h = h s

pub ruleset calls = (
  Triple-then, Triple-if, Triple-check, Triple-unless, stops, asks-Keeps, decrease-Keeps,
  kubeconfig-Keeps, connect-Keeps, listing-Keeps, object-Keeps, namespace-Keeps, save-Keeps,
  save_status-Keeps, held-Keeps, added-Keeps, dropped-Keeps, condition-Keeps, known-Keeps,
)
