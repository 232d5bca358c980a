-- ===== src/System/Total/Restore.antt =====
-- restorepvc_controller.go: when a round returns.
use backup_restore_openstack.Prelude.{String, ◌≢◌, refl, Option, none, some, List, [], ◌∷◌}
use backup_restore_openstack.Types.Meta.{NamespacedName, Condition, Error}
use backup_restore_openstack.Types.Restore.{
  RestorePvc, RestorePvcSpec, RestorePvcStatus, PersistentVolumeClaim,
}
use backup_restore_openstack.Effects.{Kind, get, Env, M, call, check, ◌>>=◌}
use backup_restore_openstack.Effects.Triple.{Triple-if}
use backup_restore_openstack.Utils.Strings.{slice_from}
use backup_restore_openstack.Restores.InUse.{
  write_use, update_increase_in_use_snapshot, update_decrease_in_use_snapshot,
}
use backup_restore_openstack.Restores.Claim.{must_parse, create_claim, restore_pvc}
use backup_restore_openstack.Restores.Restore.{
  Restored, drop_annotation, count_restore, restore_new, restore_or_find, known_or_none,
  reconcile_restore_pvc, remove_restore_annotation,
}
use backup_restore_openstack.Restores.Outcome.{
  update_restore_status, commit_condition, handle_restore_pvc_error, handle_restore_pvc_success,
}
use backup_restore_openstack.Restores.Reconcile.{
  reconcile_live, release_with_namespace, release_use, finalize, reconcile_deleted, reconcile_ready,
  initialize, reconcile_with, ensure_finalizer, reconcile,
}
use backup_restore_openstack.System.Total.{
  HasCluster, IsTotal, asked-IsTotal, AllRead, read-IsTotal, totals,
}
use backup_restore_openstack.System.Total.Shoot.{shoot_totals}

-- The namespace has a cluster, and the storage is a quantity.
abbrev pub Fits : Env → RestorePvc → Type 0
Fits env r = HasCluster r.meta × (env.parse_quantity r.spec.storage ≢ none)

module _ (env : Env) where
  increase-IsTotal : (r : RestorePvc) → IsTotal env (update_increase_in_use_snapshot r)
  unfolding update_increase_in_use_snapshot write_use
  increase-IsTotal r = search totals depth 12

  decrease-IsTotal : (r : RestorePvc) → IsTotal env (update_decrease_in_use_snapshot r)
  unfolding update_decrease_in_use_snapshot write_use
  decrease-IsTotal r = search totals depth 12

  claim-IsTotal :
      (name : String) (spec : RestorePvcSpec) (p : PersistentVolumeClaim)
      → IsTotal env (create_claim name spec p)
  unfolding create_claim
  claim-IsTotal name spec p = search totals depth 9

  parsed-IsTotal :
      {A : Type 0} (q : Option String) (go : String → M A)
      → q ≢ none
      → ((s : String) → IsTotal env (go s))
      → IsTotal env (must_parse q go)
  parsed-IsTotal none go n h = absurd (n refl)
  parsed-IsTotal (some s) go n h = h s

  restore_pvc-IsTotal :
      (name : String) (spec : RestorePvcSpec)
      → env.parse_quantity spec.storage ≢ none
      → IsTotal env (restore_pvc name spec)
  unfolding restore_pvc
  restore_pvc-IsTotal name spec n =
      search (Triple-if, asked-IsTotal, parsed-IsTotal, claim-IsTotal) depth 9

  error-IsTotal :
      (r : RestorePvc) (new : RestorePvcStatus) (e : _)
      → IsTotal env (handle_restore_pvc_error r new e)
  unfolding handle_restore_pvc_error update_restore_status commit_condition
  error-IsTotal r new e = search totals depth 16

  success-IsTotal :
      (r : RestorePvc) (new : RestorePvcStatus) → IsTotal env (handle_restore_pvc_success r new)
  unfolding handle_restore_pvc_success update_restore_status commit_condition
  success-IsTotal r new = search totals depth 16

  released-IsTotal : (d : _) (r : RestorePvc) → IsTotal env (release_with_namespace d r)
  unfolding release_with_namespace
  released-IsTotal d r = search totals depth 9

  release-IsTotal : (r : RestorePvc) → IsTotal env (release_use r)
  unfolding release_use
  release-IsTotal r = search (totals, decrease-IsTotal) depth 12

  finalize-IsTotal : (r : RestorePvc) → IsTotal env (finalize r)
  unfolding finalize
  finalize-IsTotal r = search (totals, release-IsTotal) depth 9

  deleted-IsTotal : (ns : String) (r : RestorePvc) → IsTotal env (reconcile_deleted ns r)
  unfolding reconcile_deleted
  deleted-IsTotal ns r = search (totals, released-IsTotal, finalize-IsTotal) depth 14

  ensure-IsTotal : (req : NamespacedName) (r : RestorePvc) → IsTotal env (ensure_finalizer req r)
  unfolding ensure_finalizer
  ensure-IsTotal req r = search totals depth 14

  count-IsTotal :
      (r : RestorePvc) (status : RestorePvcStatus) → IsTotal env (count_restore r status)
  unfolding count_restore drop_annotation
  count-IsTotal r status = search (totals, increase-IsTotal) depth 12

  or_find-IsTotal :
      (cluster : String) (r : RestorePvc) (o : Option Restored)
      → Fits env r
      → IsTotal env (restore_or_find cluster r o)
  unfolding restore_or_find restore_new
  or_find-IsTotal cluster r none f = search (totals, restore_pvc-IsTotal, count-IsTotal) depth 9
  or_find-IsTotal cluster r (some k) f = search totals depth 6

  known-IsTotal :
      (o : Option String) (go : String → M Restored)
      → o ≢ none
      → ((s : String) → IsTotal env (go s))
      → IsTotal env (known_or_none o go)
  known-IsTotal none go n h = absurd (n refl)
  known-IsTotal (some s) go n h = h s

  restore-IsTotal : (r : RestorePvc) → Fits env r → IsTotal env (reconcile_restore_pvc r)
  unfolding reconcile_restore_pvc
  restore-IsTotal r f =
      known-IsTotal (slice_from r.meta.namespace 4) _ f.0
        (λ cluster. search (shoot_totals, or_find-IsTotal) depth 16)

  live-IsTotal : (r : RestorePvc) → Fits env r → IsTotal env (reconcile_live r)
  unfolding reconcile_live remove_restore_annotation drop_annotation
  live-IsTotal r f = search (totals, restore-IsTotal, error-IsTotal, success-IsTotal) depth 14

  ready-IsTotal : (ns : String) (r : RestorePvc) → Fits env r → IsTotal env (reconcile_ready ns r)
  unfolding reconcile_ready
  ready-IsTotal ns r f = search (totals, live-IsTotal, deleted-IsTotal) depth 9

module _ (env : Env) (sound : AllRead env Kind.restore_pvc (Fits env)) where
  reads :
      {B : Type 0} (k : NamespacedName) (fail : Error → M B) (go : RestorePvc → M B)
      → ((e : Error) → IsTotal env (fail e))
      → ((r : RestorePvc) → Fits env r → IsTotal env (go r))
      → IsTotal env (do got ← call (get Kind.restore_pvc k); check got fail go)
  reads = read-IsTotal env Kind.restore_pvc (Fits env) sound

  initialize-IsTotal : (req : NamespacedName) (r : RestorePvc) → IsTotal env (initialize req r)
  unfolding initialize
  initialize-IsTotal req r = search (totals, reads, ready-IsTotal) depth 14

  with-IsTotal :
      (req : NamespacedName) (r : RestorePvc) (cs : List Condition)
      → Fits env r
      → IsTotal env (reconcile_with req r cs)
  unfolding reconcile_with
  with-IsTotal req r [] f = initialize-IsTotal req r
  with-IsTotal req r (c ∷ cs) f = ready-IsTotal env req.namespace r f

  pub reconcile-IsTotal : (req : NamespacedName) → IsTotal env (reconcile req)
  unfolding reconcile
  reconcile-IsTotal req = search (totals, reads, with-IsTotal, ensure-IsTotal) depth 14
