-- ===== src/System/Total/Pvc.antt =====
-- pvc_controller.go: when a round returns.
use backup_restore_openstack.Prelude.{ℕ, String, Option, List, [], ◌∷◌}
use backup_restore_openstack.Types.Meta.{Error, NamespacedName, Condition}
use backup_restore_openstack.Types.Lists.{Pvc, PvcDetail}
use backup_restore_openstack.Effects.{Kind, get, check, call, ◌>>=◌, Env, M}
use backup_restore_openstack.Listings.PvcList.{clear_annotation, write_list, reconcile_pvc}
use backup_restore_openstack.Listings.PvcReconcile.{
  commit, report_failure, report_success, reconcile_live, write_released, finalize,
  release_with_namespace, reconcile_deleted, reconcile_ready, initialize, ensure_finalizer,
  reconcile,
}
use backup_restore_openstack.System.Total.{
  HasCluster, IsTotal, AllRead, read-IsTotal, deref-IsTotal,
}
use backup_restore_openstack.Utils.Shoot.{get_namespace, get_pvc}
use backup_restore_openstack.Utils.Strings.{slice_from}
use backup_restore_openstack.System.Total.Shoot.{
  AreListed, namespaces-IsTotal, AreClassed, pvcs-IsTotal, shoot_totals,
}

module _ (env : Env) (listed : AreListed env) (classed : AreClassed env) where
  clear-IsTotal : (o : Pvc) → IsTotal env (clear_annotation o)
  unfolding clear_annotation
  clear-IsTotal o = search shoot_totals depth 9

  list-IsTotal : (o : Pvc) (pvcs : List PvcDetail) → IsTotal env (write_list o pvcs)
  unfolding write_list
  list-IsTotal o pvcs = search (shoot_totals, clear-IsTotal) depth 9

  named : IsTotal env get_namespace
  named = namespaces-IsTotal env listed

  classes : (ns : List String) → IsTotal env (get_pvc ns)
  classes = pvcs-IsTotal env classed

  pvc_phase-IsTotal : (o : Pvc) → HasCluster o.meta → IsTotal env (reconcile_pvc o)
  unfolding reconcile_pvc
  pvc_phase-IsTotal o h =
      deref-IsTotal env (slice_from o.meta.namespace 4) _ h
        (λ cluster. search (shoot_totals, named, classes, list-IsTotal) depth 16)

  live-IsTotal : (o : Pvc) → HasCluster o.meta → IsTotal env (reconcile_live o)
  unfolding reconcile_live report_failure report_success commit
  live-IsTotal o h = search (shoot_totals, pvc_phase-IsTotal) depth 14

  written-IsTotal : (o : Pvc) → IsTotal env (write_released o)
  unfolding write_released
  written-IsTotal o = search shoot_totals depth 12

  finalize-IsTotal : (o : Pvc) → IsTotal env (finalize o)
  unfolding finalize
  finalize-IsTotal o = search (shoot_totals, written-IsTotal) depth 9

  release-IsTotal : (d : Option ℕ) (o : Pvc) → IsTotal env (release_with_namespace d o)
  unfolding release_with_namespace
  release-IsTotal d o = search shoot_totals depth 9

  deleted-IsTotal : (ns : String) (o : Pvc) → IsTotal env (reconcile_deleted ns o)
  unfolding reconcile_deleted
  deleted-IsTotal ns o = search (shoot_totals, release-IsTotal, finalize-IsTotal) depth 14

  ready-IsTotal : (ns : String) (o : Pvc) → HasCluster o.meta → IsTotal env (reconcile_ready ns o)
  unfolding reconcile_ready
  ready-IsTotal ns o h = search (shoot_totals, live-IsTotal, deleted-IsTotal) depth 9

  ensure-IsTotal : (req : NamespacedName) (o : Pvc) → IsTotal env (ensure_finalizer req o)
  unfolding ensure_finalizer
  ensure-IsTotal req o = search shoot_totals depth 12

  module _ (sound : AllRead env Kind.pvc (λ o. HasCluster o.meta)) where
    reads :
        {B : Type 0} (name : NamespacedName) (fail : Error → M B) (go : Pvc → M B)
        → ((e : Error) → IsTotal env (fail e))
        → ((o : Pvc) → HasCluster o.meta → IsTotal env (go o))
        → IsTotal env (do got ← call (get Kind.pvc name); check got fail go)
    reads = read-IsTotal env Kind.pvc (λ o. HasCluster o.meta) sound

    initialize-IsTotal :
        (req : NamespacedName) (o : Pvc) (cs : List Condition)
        → HasCluster o.meta
        → IsTotal env (initialize req o cs)
    unfolding initialize
    initialize-IsTotal req o [] h = search (shoot_totals, reads, ready-IsTotal) depth 14
    initialize-IsTotal req o (c ∷ cs) h = ready-IsTotal req.namespace o h

    pub reconcile-IsTotal : (req : NamespacedName) → IsTotal env (reconcile req)
    unfolding reconcile
    reconcile-IsTotal req =
        search (shoot_totals, reads, initialize-IsTotal, ensure-IsTotal) depth 14
