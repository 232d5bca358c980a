-- ===== src/Restores/Ledger/Rounds.antt =====
-- restorepvc_controller.go: every round of Reconcile, on any object and with any answers, is a run of
-- the abstract count.
use backup_restore_openstack.Prelude.{ℕ, String, Option, List, [], ◌∷◌}
use backup_restore_openstack.Prelude.Int.{ℤ}
use backup_restore_openstack.Types.Meta.{Error, NamespacedName, Condition}
use backup_restore_openstack.Types.Restore.{RestorePvc, RestorePvcStatus}
use backup_restore_openstack.Effects.{Request, Env, M}
use backup_restore_openstack.Effects.Triple.{Triple}
use backup_restore_openstack.Restores.Outcome.{
  update_restore_status, commit_condition, handle_restore_pvc_error, handle_restore_pvc_success,
}
use backup_restore_openstack.Restores.Reconcile.{
  reconcile_live, release_with_namespace, release_use, finalize, reconcile_deleted, reconcile_ready,
  initialize, reconcile_with, ensure_finalizer, reconcile,
}
use backup_restore_openstack.Restores.Ledger.{IsStore}
use backup_restore_openstack.Restores.Ledger.Steps
use backup_restore_openstack.Restores.Ledger.Calls.{calls}
use backup_restore_openstack.Restores.Ledger.Creation.{restore-Keeps, removed-Keeps}

module _ (env : Env) (key : NamespacedName) (first : ℤ) (store : IsStore env key first) where
  abbrev Spare : ℕ → List Request → Type 0
  Spare = Steps.Spare env key first store

  abbrev Keeps : {A : Type 0} → M A → Type 0
  Keeps m = Triple env (Spare 0) (Spare 0) m (λ _. Spare 0)

  written-Keeps : (r : RestorePvc) (s : RestorePvcStatus) → Keeps (update_restore_status r s)
  unfolding update_restore_status
  written-Keeps r s = search calls depth 9

  committed-Keeps :
      (r : RestorePvc) (c : Condition) (e : Option Error) → Keeps (commit_condition r c e)
  unfolding commit_condition
  committed-Keeps r c e = search calls depth 9

  error-Keeps :
      (r : RestorePvc) (s : RestorePvcStatus) (e : Error) → Keeps (handle_restore_pvc_error r s e)
  unfolding handle_restore_pvc_error
  error-Keeps r s e = search (calls, written-Keeps, committed-Keeps) depth 9

  success-Keeps : (r : RestorePvc) (s : RestorePvcStatus) → Keeps (handle_restore_pvc_success r s)
  unfolding handle_restore_pvc_success
  success-Keeps r s = search (calls, written-Keeps, committed-Keeps) depth 9

  live-Keeps : (r : RestorePvc) → Keeps (reconcile_live r)
  unfolding reconcile_live
  live-Keeps r = search (calls, restore-Keeps, removed-Keeps, error-Keeps, success-Keeps) depth 9

  release-Keeps : (r : RestorePvc) → Keeps (finalize r)
  unfolding finalize release_use
  release-Keeps r = search calls depth 12

  deleted-Keeps : (ns : String) (r : RestorePvc) → Keeps (reconcile_deleted ns r)
  unfolding reconcile_deleted release_with_namespace
  deleted-Keeps ns r = search (calls, release-Keeps) depth 14

  ready-Keeps : (ns : String) (r : RestorePvc) → Keeps (reconcile_ready ns r)
  unfolding reconcile_ready
  ready-Keeps ns r = search (calls, live-Keeps, deleted-Keeps) depth 9

  initialize-Keeps : (req : NamespacedName) (r : RestorePvc) → Keeps (initialize req r)
  unfolding initialize
  initialize-Keeps req r = search (calls, ready-Keeps) depth 12

  with-Keeps :
      (req : NamespacedName) (r : RestorePvc) (cs : List Condition)
      → Keeps (reconcile_with req r cs)
  unfolding reconcile_with
  with-Keeps req r [] = initialize-Keeps req r
  with-Keeps req r (c ∷ cs) = ready-Keeps req.namespace r

  ensure-Keeps : (req : NamespacedName) (r : RestorePvc) → Keeps (ensure_finalizer req r)
  unfolding ensure_finalizer
  ensure-Keeps req r = search calls depth 12

  -- a round of the RestorePvc controller keeps the count a run of the abstract one
  pub reconcile-Keeps : (req : NamespacedName) → Keeps (reconcile req)
  unfolding reconcile
  reconcile-Keeps req = search (calls, with-Keeps, ensure-Keeps) depth 12
