-- ===== src/Restores/CountLaws.antt =====
-- When the use of a snapshot by a restore is counted.
use backup_restore_openstack.Prelude.{
  String, ◌≡◌, ◌⊎◌, refl, Option, none, some, List, [], ◌∷◌, arith,
}
use backup_restore_openstack.Types.Meta.{Error}
use backup_restore_openstack.Types.Restore.{
  RestorePvc, RestorePvcSpec, RestorePvcStatus, PersistentVolumeClaim,
}
use backup_restore_openstack.Effects.{
  Kind, Request, update, create_pvc, list_pvcs, connect, Env, M, pure, asks, save, unless, call,
  ◌>>=◌,
}
use backup_restore_openstack.Effects.Triple.{
  Triple, trace_of, Triple-pure, Triple-panic, Triple-bind, Triple-then, Triple-if, Triple-check,
  Triple-unless, Triple-call,
}
use backup_restore_openstack.Utils.Kubeconfig.{get_secret_shoot_integrated_kubeconfig}
use backup_restore_openstack.Snapshots.DeleteLaws.{IsOk}
use backup_restore_openstack.Restores.InUse.{write_use, update_increase_in_use_snapshot}
use backup_restore_openstack.Restores.Claim.{must_parse, create_claim, restore_pvc}
use backup_restore_openstack.Restores.Restore.{
  Restored, drop_annotation, count_restore, restore_new, restore_or_find, known_or_none,
  reconcile_restore_pvc,
}

module _ (env : Env) where
  -- Some PVC was created in the trace.
  abbrev pub HasMade : List Request → Type 0
  HasMade [] = ⊥
  HasMade (create_pvc ns p ∷ t) = IsOk (env.answer t (create_pvc ns p)) ⊎ HasMade t
  HasMade (_ ∷ t) = HasMade t

  -- Each update of a Snapshot was asked for after a PVC was created.
  abbrev pub IsCounted : List Request → Type 0
  IsCounted [] = Unit
  IsCounted (update Kind.snapshot o ∷ t) = HasMade t × IsCounted t
  IsCounted (_ ∷ t) = IsCounted t

  abbrev Keeps : {A : Type 0} → M A → Type 0
  Keeps m = Triple env IsCounted IsCounted m (λ _. IsCounted)

  abbrev Made : List Request → Type 0
  Made t = HasMade t × IsCounted t

  -- after an attempt to create: without an error there is a PVC
  abbrev Attempted : RestorePvcStatus × Option Error → List Request → Type 0
  Attempted r t = IsCounted t × (r.1 ≡ none → HasMade t)

  create_claim-Attempted :
      (name : String) (spec : RestorePvcSpec) (p : PersistentVolumeClaim)
      → Triple env IsCounted IsCounted (create_claim name spec p) Attempted
  unfolding create_claim ◌>>=◌
  create_claim-Attempted name spec p = record { at = λ t h. ground arith }

  must_parse-Attempted :
      (q : Option String) (go : String → M (RestorePvcStatus × Option Error))
      → ((s : String) → Triple env IsCounted IsCounted (go s) Attempted)
      → Triple env IsCounted IsCounted (must_parse q go) Attempted
  must_parse-Attempted none go h = Triple-panic (λ t c. c)
  must_parse-Attempted (some q) go h = h q

  asks-Keeps : {A : Type 0} (f : Env → A) → Keeps (asks f)
  unfolding asks
  asks-Keeps f = record { at = λ t h. h }

  restore_pvc-Attempted :
      (name : String) (spec : RestorePvcSpec)
      → Triple env IsCounted IsCounted (restore_pvc name spec) Attempted
  unfolding restore_pvc
  restore_pvc-Attempted name spec =
      search (Triple-if, Triple-then, asks-Keeps, must_parse-Attempted, create_claim-Attempted)
        depth 9

  Made-Keeps : {A : Type 0} (a : A) → Triple env IsCounted Made (pure a) (λ _. IsCounted)
  Made-Keeps a = Triple-pure a (λ t h. h.1)

  drop_annotation-Made :
      (o : RestorePvc) → Triple env IsCounted Made (drop_annotation o) (λ _. Made)
  unfolding drop_annotation save
  drop_annotation-Made o = record { at = λ t h. h }

  increase-Made :
      (o : RestorePvc) → Triple env IsCounted Made (update_increase_in_use_snapshot o) (λ _. Made)
  unfolding update_increase_in_use_snapshot write_use ◌>>=◌
  increase-Made o = record { at = λ t h. ground arith }

  count_restore-Made :
      (o : RestorePvc) (s : RestorePvcStatus)
      → Triple env IsCounted Made (count_restore o s) (λ _. IsCounted)
  unfolding count_restore
  count_restore-Made o s =
      search
        (Triple-if, Triple-then, Triple-unless, Made-Keeps, drop_annotation-Made, increase-Made)
        depth 9

  IsCounted-after :
      (o : RestorePvc) (made : RestorePvcStatus × Option Error) (fail : Error → Restored)
      → Triple env IsCounted
          (Attempted made)
          (unless made.1 (λ e. pure (fail e)) (count_restore o made.0))
          (λ _. IsCounted)
  unfolding unless pure
  IsCounted-after o (s, none) fail = record {
    at = λ t h. (count_restore-Made o s).at t (h.1 refl, h.0);
  }
  IsCounted-after o (s, some e) fail = record { at = λ t h. h.0 }

  pure-Keeps : {A : Type 0} (a : A) → Keeps (pure a)
  pure-Keeps a = Triple-pure a (λ t h. h)

  restore_new-Keeps : (cluster_name : String) (r : RestorePvc) → Keeps (restore_new cluster_name r)
  unfolding restore_new
  restore_new-Keeps cluster_name r =
      Triple-bind {Q = Attempted} (restore_pvc r.meta.name r.spec) _
        (restore_pvc-Attempted r.meta.name r.spec) (λ made. IsCounted-after r made _)

  restore_or_find-Keeps :
      (cluster_name : String) (r : RestorePvc) (known : Option Restored)
      → Keeps (restore_or_find cluster_name r known)
  unfolding restore_or_find
  restore_or_find-Keeps cluster_name r none = restore_new-Keeps cluster_name r
  restore_or_find-Keeps cluster_name r (some k) = pure-Keeps k

  kubeconfig-Keeps : (ns : String) → Keeps (get_secret_shoot_integrated_kubeconfig ns)
  unfolding get_secret_shoot_integrated_kubeconfig ◌>>=◌
  kubeconfig-Keeps ns = record { at = λ t h. ground arith }

  connect-Keeps : (config cluster : String) → Keeps (call (connect config cluster))
  connect-Keeps config cluster = Triple-call (connect config cluster) (λ t h. h)

  listing-Keeps : (ns : String) → Keeps (call (list_pvcs ns))
  listing-Keeps ns = Triple-call (list_pvcs ns) (λ t h. h)

  known_or_none-Keeps :
      (q : Option String) (go : String → M Restored)
      → ((s : String) → Keeps (go s))
      → Keeps (known_or_none q go)
  known_or_none-Keeps none go h = Triple-panic (λ t c. c)
  known_or_none-Keeps (some s) go h = h s

  restore-Keeps : (r : RestorePvc) → Keeps (reconcile_restore_pvc r)
  unfolding reconcile_restore_pvc
  restore-Keeps r =
      search
        (
          known_or_none-Keeps, Triple-then, Triple-check, kubeconfig-Keeps, connect-Keeps,
          listing-Keeps, pure-Keeps, restore_or_find-Keeps,
        )
        depth 12

  -- ReconcileRestorePvc counts a use of the snapshot only after a PVC was created in the shoot.
  pub reconcile_restore_pvc-IsCounted :
      (r : RestorePvc) → IsCounted (reconcile_restore_pvc r env []).1
  reconcile_restore_pvc-IsCounted r =
      trace_of IsCounted (reconcile_restore_pvc r env []) ((restore-Keeps r).at [] tt)
