-- ===== src/Restores/Ledger/Creation.antt =====
-- restorepvc_controller.go, ReconcileRestorePvc: a use is taken once for each PVC that is created.
use backup_restore_openstack.Prelude.{ℕ, ◌≡◌, refl, arith, String, Option, none, some, List, ◌∷◌}
use backup_restore_openstack.Prelude.Int.{ℤ}
use backup_restore_openstack.Types.Meta.{Error, NamespacedName}
use backup_restore_openstack.Types.Restore.{
  RestorePvc, RestorePvcSpec, RestorePvcStatus, PersistentVolumeClaim,
}
use backup_restore_openstack.Effects.{
  Request, Answer, ok, err, check, unless, create_pvc, Env, M, pure, save, call, ◌>>=◌,
}
use backup_restore_openstack.Effects.Triple.{
  Triple, Post, Triple-bind, Triple-panic, Triple-then, Triple-if, Triple-unless,
}
use backup_restore_openstack.Restores.InUse.{update_increase_in_use_snapshot}
use backup_restore_openstack.Restores.Claim.{
  failed_status, created_status, must_parse, create_claim, restore_pvc,
}
use backup_restore_openstack.Restores.Restore.{
  Restored, drop_annotation, count_restore, restore_new, restore_or_find, reconcile_restore_pvc,
  remove_restore_annotation,
}
use backup_restore_openstack.Restores.Ledger.{IsStore}
use backup_restore_openstack.Restores.Ledger.Steps
use backup_restore_openstack.Restores.Ledger.Calls.{calls, stops, asks-Keeps}

module _ (env : Env) (key : NamespacedName) (first : ℤ) (store : IsStore env key first) where
  abbrev Spare : ℕ → List Request → Type 0
  Spare = Steps.Spare env key first store

  abbrev Keeps : {A : Type 0} → M A → Type 0
  Keeps m = Triple env (Spare 0) (Spare 0) m (λ _. Spare 0)

  -- after an attempt to create: without an error there is a PVC that no use was taken for
  abbrev Attempted : RestorePvcStatus × Option Error → List Request → Type 0
  Attempted r t = Spare 0 t × (r.1 ≡ none → Spare 1 t)

  module _ (name : String) (spec : RestorePvcSpec) (p : PersistentVolumeClaim) where
    claim-Post :
        (t : List Request) (a : Answer PersistentVolumeClaim)
        → env.answer t (create_pvc spec.des_namespace p) ≡ a
        → Spare 0 t
        → Post Attempted (Spare 0) (
            check {B = M (RestorePvcStatus × Option Error)} a
              (λ e. pure (failed_status "False" name spec, some e))
              (λ stored. pure (created_status spec stored, none))
              env
              (create_pvc spec.des_namespace p ∷ t))
    unfolding check pure
    claim-Post t (ok stored) h (m, u, c, l, v) =
        rw h ((m, u, c, omega arith, v), λ e. (m, u, c, omega arith, v))
    claim-Post t (err x) h (m, u, c, l, v) = rw h ((m, u, c, omega arith, v), λ e. cc)

    claim-Attempted : Triple env (Spare 0) (Spare 0) (create_claim name spec p) Attempted
    unfolding create_claim call ◌>>=◌
    claim-Attempted = record {
      at = λ t i. claim-Post t (env.answer t (create_pvc spec.des_namespace p)) refl i;
    }

  must_parse-Attempted :
      (q : Option String) (go : String → M (RestorePvcStatus × Option Error))
      → ((s : String) → Triple env (Spare 0) (Spare 0) (go s) Attempted)
      → Triple env (Spare 0) (Spare 0) (must_parse q go) Attempted
  must_parse-Attempted none go h = Triple-panic (λ t i. i)
  must_parse-Attempted (some q) go h = h q

  restore_pvc-Attempted :
      (name : String) (spec : RestorePvcSpec)
      → Triple env (Spare 0) (Spare 0) (restore_pvc name spec) Attempted
  unfolding restore_pvc
  restore_pvc-Attempted name spec =
      search (Triple-if, Triple-then, asks-Keeps, must_parse-Attempted, claim-Attempted) depth 9

  drop_annotation-Spare :
      (r : RestorePvc) → Triple env (Spare 0) (Spare 1) (drop_annotation r) (λ _. Spare 1)
  unfolding drop_annotation save
  drop_annotation-Spare r = record { at = λ t i. i }

  increase_then :
      (r : RestorePvc) (f : Option Error → M Restored)
      → ((e : Option Error) → Keeps (f e))
      → Triple env (Spare 0) (Spare 1) (update_increase_in_use_snapshot r >>= f) (λ _. Spare 0)
  increase_then r f h =
      Triple-bind {Q = λ _. Spare 0} (update_increase_in_use_snapshot r) f
        (Steps.increase-Spare env key first store r) h

  stop-Spare : {A : Type 0} (a : A) → Triple env (Spare 0) (Spare 1) (pure a) (λ _. Spare 0)
  stop-Spare = Steps.stop-Spare env key first store

  count_restore-Spare :
      (r : RestorePvc) (s : RestorePvcStatus)
      → Triple env (Spare 0) (Spare 1) (count_restore r s) (λ _. Spare 0)
  unfolding count_restore
  count_restore-Spare r s =
      search
        (
          Triple-if, Triple-then, Triple-unless, stops, stop-Spare, drop_annotation-Spare,
          increase_then,
        )
        depth 9

  counted-Keeps :
      (r : RestorePvc) (tried : RestorePvcStatus × Option Error) (fail : Error → Restored)
      → Triple env
          (Spare 0)
          (Attempted tried)
          (unless tried.1 (λ e. pure (fail e)) (count_restore r tried.0))
          (λ _. Spare 0)
  unfolding unless pure
  counted-Keeps r (s, none) fail = record { at = λ t i. (count_restore-Spare r s).at t (i.1 refl) }
  counted-Keeps r (s, some e) fail = record { at = λ t i. i.0 }

  new-Keeps : (cluster : String) (r : RestorePvc) → Keeps (restore_new cluster r)
  unfolding restore_new
  new-Keeps cluster r =
      Triple-bind {Q = Attempted} (restore_pvc r.meta.name r.spec) _
        (restore_pvc-Attempted r.meta.name r.spec) (λ tried. counted-Keeps r tried _)

  or_find-Keeps :
      (cluster : String) (r : RestorePvc) (known : Option Restored)
      → Keeps (restore_or_find cluster r known)
  unfolding restore_or_find
  or_find-Keeps cluster r (some k) = stops env key first store k
  or_find-Keeps cluster r none = new-Keeps cluster r

  pub restore-Keeps : (r : RestorePvc) → Keeps (reconcile_restore_pvc r)
  unfolding reconcile_restore_pvc
  restore-Keeps r = search (calls, or_find-Keeps) depth 16

  pub removed-Keeps : (r : RestorePvc) → Keeps (remove_restore_annotation r)
  unfolding remove_restore_annotation drop_annotation
  removed-Keeps r = search calls depth 9
