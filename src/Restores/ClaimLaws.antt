-- ===== src/Restores/ClaimLaws.antt =====
-- Which PVCs a restore creates, and which uses it counts.
use backup_restore_openstack.Prelude.{
  String, ◌==◌, eq_iff, ◌≡◌, ◌⊎◌, inl, inr, refl, true, Option, none, some, List, [], ◌∷◌, arith,
}
use backup_restore_openstack.Types.Meta.{new_meta}
use backup_restore_openstack.Types.Restore.{
  RestorePvc, RestorePvcStatus, DataSource, PersistentVolumeClaim,
}
use backup_restore_openstack.Effects.{
  Request, create, update, update_status, patch, delete, dynamic_create, dynamic_delete, create_pvc,
  list_pvcs, connect, ok, Env, M, pure, check, call, ◌>>=◌,
}
use backup_restore_openstack.Effects.Trace.{Issues, issues_rules}
use backup_restore_openstack.Effects.Triple.{
  Triple, trace_of, Triple-pure, Triple-panic, Triple-then, Triple-check, Triple-call,
}
use backup_restore_openstack.Utils.Kubeconfig.{get_secret_shoot_integrated_kubeconfig}
use backup_restore_openstack.Restores.InUse.{write_use, update_increase_in_use_snapshot}
use backup_restore_openstack.Restores.Claim.{must_parse, claim_for, create_claim, restore_pvc}
use backup_restore_openstack.Restores.Restore.{
  Restored, drop_annotation, match_claim, or_else, find_claim, count_restore, restore_new,
  restore_or_find, known_or_none, reconcile_restore_pvc,
}

-- What a PVC created for a restore within one namespace is.
pub record IsClaim (r : RestorePvc) (ns : String) (p : PersistentVolumeClaim) : Type 0 where
  pub place : ns ≡ r.spec.des_namespace
  pub meta : p.meta ≡ new_meta r.meta.name r.spec.des_namespace
  pub source :
      p.data_source
      ≡ some (record {
        name = r.spec.snapshot_name;
        kind = "VolumeSnapshot";
        api_group = "snapshot.storage.k8s.io";
      })
  pub modes : p.access_modes ≡ r.spec.access_modes

abbrev pub Claims : RestorePvc → Request → Type 0
Claims r (create_pvc ns p) = IsClaim r ns p
Claims r _ = Unit

must_parse-Issues :
    {A : Type 0} {P : Request → Type 0} (q : Option String) (go : String → M A)
    → ((s : String) → Issues P (go s))
    → Issues P (must_parse q go)
must_parse-Issues none go h = search issues_rules
must_parse-Issues (some q) go h = h q

known_or_none-Issues :
    {P : Request → Type 0} (q : Option String) (go : String → M Restored)
    → ((s : String) → Issues P (go s))
    → Issues P (known_or_none q go)
known_or_none-Issues none go h = search issues_rules
known_or_none-Issues (some q) go h = h q

module _ (r : RestorePvc) where
  claim_for-IsClaim : (q : String) → IsClaim r r.spec.des_namespace (claim_for r.meta.name r.spec q)
  unfolding claim_for
  claim_for-IsClaim q = record { place = refl; meta = refl; source = refl; modes = refl }

  create_claim-Claims :
      (q : String)
      → Issues (Claims r) (create_claim r.meta.name r.spec (claim_for r.meta.name r.spec q))
  unfolding create_claim
  create_claim-Claims q = let c = claim_for-IsClaim q in search (issues_rules, c)

  restore_pvc-Claims :
      (r.spec.source_namespace == r.spec.des_namespace) ≡ true
      → Issues (Claims r) (restore_pvc r.meta.name r.spec)
  unfolding restore_pvc
  restore_pvc-Claims h =
      rw h (search (issues_rules, must_parse-Issues, create_claim-Claims) depth 9)

  drop_annotation-Claims : (o : RestorePvc) → Issues (Claims r) (drop_annotation o)
  unfolding drop_annotation
  drop_annotation-Claims o = search issues_rules

  increase-Claims : (o : RestorePvc) → Issues (Claims r) (update_increase_in_use_snapshot o)
  unfolding update_increase_in_use_snapshot write_use
  increase-Claims o = search issues_rules depth 9

  count_restore-Claims :
      (o : RestorePvc) (s : RestorePvcStatus) → Issues (Claims r) (count_restore o s)
  unfolding count_restore
  count_restore-Claims o s = search (issues_rules, drop_annotation-Claims, increase-Claims) depth 9

  restore_or_find-Claims :
      (cluster_name : String) (known : Option Restored)
      → (r.spec.source_namespace == r.spec.des_namespace) ≡ true
      → Issues (Claims r) (restore_or_find cluster_name r known)
  unfolding restore_or_find restore_new
  restore_or_find-Claims cluster_name (some k) h = search issues_rules
  restore_or_find-Claims cluster_name none h =
      search (issues_rules, restore_pvc-Claims, count_restore-Claims) depth 9

  kubeconfig-Claims : (ns : String) → Issues (Claims r) (get_secret_shoot_integrated_kubeconfig ns)
  unfolding get_secret_shoot_integrated_kubeconfig ◌>>=◌
  kubeconfig-Claims ns = record { at = λ env t h. ground arith }

  -- For a restore within one namespace every PVC that ReconcileRestorePvc creates, whatever the API
  -- servers answer, is in the destination namespace, has the restore's name and the access modes of
  -- its spec, and is filled from the VolumeSnapshot that the spec names.
  pub reconcile_restore_pvc-Claims :
      r.spec.source_namespace ≡ r.spec.des_namespace → Issues (Claims r) (reconcile_restore_pvc r)
  unfolding reconcile_restore_pvc
  reconcile_restore_pvc-Claims h =
      let same = (eq_iff r.spec.source_namespace r.spec.des_namespace).1 h in
      search (issues_rules, known_or_none-Issues, kubeconfig-Claims, restore_or_find-Claims, same)
        depth 12

abbrev FilledFrom : String → Option DataSource → Type 0
FilledFrom name none = Unit
FilledFrom name (some s) = s.name ≡ name

-- The listed PVC has the restore's name, and its data source is the restore's snapshot or missing.
abbrev pub Takes : RestorePvc → PersistentVolumeClaim → Type 0
Takes r p = (p.meta.name ≡ r.meta.name) × FilledFrom r.spec.snapshot_name p.data_source

abbrev pub Any : {A : Type 0} → (A → Type 0) → List A → Type 0
Any P [] = ⊥
Any P (x ∷ xs) = P x ⊎ Any P xs

abbrev pub IsSome : {A : Type 0} → Option A → Type 0
IsSome none = ⊥
IsSome (some a) = Unit

match_claim-IsSome :
    (r : RestorePvc) (p : PersistentVolumeClaim) (source : Option DataSource)
    → FilledFrom r.spec.snapshot_name source
    → IsSome (match_claim r p source)
unfolding match_claim
match_claim-IsSome r p none h = tt
match_claim-IsSome r p (some s) h = rw ((eq_iff s.name r.spec.snapshot_name).1 h) tt

or_else-IsSome : {A : Type 0} (a b : Option A) → IsSome a ⊎ IsSome b → IsSome (or_else a b)
or_else-IsSome none b (inl h) = absurd h
or_else-IsSome none b (inr h) = h
or_else-IsSome (some a) b h = tt

find_claim-IsSome :
    (r : RestorePvc) (pvcs : List PersistentVolumeClaim)
    → Any (Takes r) pvcs
    → IsSome (find_claim r pvcs)
unfolding find_claim
find_claim-IsSome r [] h = h
find_claim-IsSome r (p ∷ ps) (inl (n, h)) =
    rw ((eq_iff p.meta.name r.meta.name).1 n)
      (or_else-IsSome _ (find_claim r ps) (inl (match_claim-IsSome r p p.data_source h)))
find_claim-IsSome r (p ∷ ps) (inr h) = ground (
  arith,
  find_claim-IsSome r ps h,
  or_else-IsSome (match_claim r p p.data_source) (find_claim r ps) (inr (find_claim-IsSome r ps h)),
)

-- No PVC is created, and no object is created, written or deleted.
abbrev pub IsQuiet : List Request → Type 0
IsQuiet [] = Unit
IsQuiet (create_pvc ns p ∷ t) = ⊥
IsQuiet (create k o ∷ t) = ⊥
IsQuiet (update k o ∷ t) = ⊥
IsQuiet (update_status k o ∷ t) = ⊥
IsQuiet (patch k o ∷ t) = ⊥
IsQuiet (delete k o ∷ t) = ⊥
IsQuiet (dynamic_create r n o ∷ t) = ⊥
IsQuiet (dynamic_delete r n o ∷ t) = ⊥
IsQuiet (_ ∷ t) = IsQuiet t

module _ (env : Env) (r : RestorePvc) (pvcs : List PersistentVolumeClaim) where
  abbrev Quiet : {A : Type 0} → M A → Type 0
  Quiet m = Triple env IsQuiet IsQuiet m (λ _. IsQuiet)

  kubeconfig-Quiet : (ns : String) → Quiet (get_secret_shoot_integrated_kubeconfig ns)
  unfolding get_secret_shoot_integrated_kubeconfig ◌>>=◌
  kubeconfig-Quiet ns = record { at = λ t h. ground arith }

  pure-Quiet : {A : Type 0} (a : A) → Quiet (pure a)
  pure-Quiet a = Triple-pure a (λ t h. h)

  known-Quiet :
      (cluster_name : String) (known : Option Restored)
      → IsSome known
      → Quiet (restore_or_find cluster_name r known)
  unfolding restore_or_find
  known-Quiet cluster_name none h = absurd h
  known-Quiet cluster_name (some k) h = pure-Quiet k

  listing-Quiet :
      (cluster_name : String)
      → ((t : List Request) → env.answer t (list_pvcs r.spec.des_namespace) ≡ ok pvcs)
      → Any (Takes r) pvcs
      → Quiet (do
        listed ← call (list_pvcs r.spec.des_namespace)
        check listed
            (λ e. restore_or_find cluster_name r none)
            (λ found. restore_or_find cluster_name r (find_claim r found)))
  unfolding ◌>>=◌ call check
  listing-Quiet cluster_name l h = record {
    at = λ t q. rw (l t) (
        (known-Quiet cluster_name (find_claim r pvcs) (find_claim-IsSome r pvcs h)).at
          (list_pvcs r.spec.des_namespace ∷ t) q);
  }

  connect-Quiet : (config cluster : String) → Quiet (call (connect config cluster))
  connect-Quiet config cluster = Triple-call (connect config cluster) (λ t h. h)

  known_or_none-Quiet :
      (q : Option String) (go : String → M Restored)
      → ((s : String) → Quiet (go s))
      → Quiet (known_or_none q go)
  known_or_none-Quiet none go h = Triple-panic (λ t q. q)
  known_or_none-Quiet (some s) go h = h s

  restore-Quiet :
      ((t : List Request) → env.answer t (list_pvcs r.spec.des_namespace) ≡ ok pvcs)
      → Any (Takes r) pvcs
      → Quiet (reconcile_restore_pvc r)
  unfolding reconcile_restore_pvc
  restore-Quiet l h =
      search
        (
          known_or_none-Quiet, Triple-then, Triple-check, kubeconfig-Quiet, connect-Quiet,
          pure-Quiet, listing-Quiet, l, h,
        )
        depth 12

  -- For a restore whose PVC is in the destination namespace already, filled from the snapshot or from
  -- nothing, ReconcileRestorePvc creates no PVC and creates, writes or deletes no object: the use of the
  -- snapshot is not counted a second time. What Reconcile writes afterwards is not meant.
  pub reconcile_restore_pvc-IsQuiet :
      ((t : List Request) → env.answer t (list_pvcs r.spec.des_namespace) ≡ ok pvcs)
      → Any (Takes r) pvcs
      → IsQuiet (reconcile_restore_pvc r env []).1
  reconcile_restore_pvc-IsQuiet l h =
      trace_of IsQuiet (reconcile_restore_pvc r env []) ((restore-Quiet l h).at [] tt)
