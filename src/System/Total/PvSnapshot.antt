-- ===== src/System/Total/PvSnapshot.antt =====
-- pvsnapshot_controller.go: when a round returns.
use backup_restore_openstack.Prelude.{ℕ, String, Option, List, [], ◌∷◌}
use backup_restore_openstack.Types.Meta.{Error, NamespacedName, Condition}
use backup_restore_openstack.Types.Lists.{PvSnapshot}
use backup_restore_openstack.Types.Snapshot.{PvSnapshotItem}
use backup_restore_openstack.Effects.{Kind, get, check, call, ◌>>=◌, Env, M}
use backup_restore_openstack.Effects.Triple.{Triple-then, Triple-check}
use backup_restore_openstack.Listings.PvSnapshotList.{get_items, set_items, reconcile_pv_snapshot}
use backup_restore_openstack.Listings.PvSnapshotReconcile.{
  commit, report_failure, report_success, reconcile_live, write_released, finalize,
  release_with_namespace, reconcile_deleted, reconcile_ready, initialize, ensure_finalizer,
  reconcile,
}
use backup_restore_openstack.System.Total.{
  HasCluster, IsTotal, AllRead, read-IsTotal, deref-IsTotal, pure-IsTotal,
}
use backup_restore_openstack.Utils.Shoot.{get_namespace}
use backup_restore_openstack.Utils.Strings.{slice_from}
use backup_restore_openstack.System.Total.Shoot.{
  AreListed, namespaces-IsTotal, volume_snapshots-IsTotal, shoot_totals,
}

module _ (env : Env) (listed : AreListed env) where
  items-IsTotal : (ns : List String) → IsTotal env (get_items ns)
  unfolding get_items
  items-IsTotal [] = search shoot_totals depth 6
  items-IsTotal (name ∷ ns) = Triple-then _ _ (volume_snapshots-IsTotal env name) (λ listed.
      Triple-check listed _ _ (λ e h. items-IsTotal ns)
        (λ items h. Triple-then _ _ (items-IsTotal ns) (λ more. pure-IsTotal env _)))

  set-IsTotal : (o : PvSnapshot) (items : List PvSnapshotItem) → IsTotal env (set_items o items)
  unfolding set_items
  set-IsTotal o items = search shoot_totals depth 12

  named : IsTotal env get_namespace
  named = namespaces-IsTotal env listed

  listed-IsTotal : (o : PvSnapshot) → HasCluster o.meta → IsTotal env (reconcile_pv_snapshot o)
  unfolding reconcile_pv_snapshot
  listed-IsTotal o h =
      deref-IsTotal env (slice_from o.meta.namespace 4) _ h
        (λ cluster. search (shoot_totals, named, items-IsTotal, set-IsTotal) depth 16)

  live-IsTotal : (o : PvSnapshot) → HasCluster o.meta → IsTotal env (reconcile_live o)
  unfolding reconcile_live report_failure report_success commit
  live-IsTotal o h = search (shoot_totals, listed-IsTotal) depth 14

  written-IsTotal : (o : PvSnapshot) → IsTotal env (write_released o)
  unfolding write_released
  written-IsTotal o = search shoot_totals depth 12

  finalize-IsTotal : (o : PvSnapshot) → IsTotal env (finalize o)
  unfolding finalize
  finalize-IsTotal o = search (shoot_totals, written-IsTotal) depth 9

  release-IsTotal : (d : Option ℕ) (o : PvSnapshot) → IsTotal env (release_with_namespace d o)
  unfolding release_with_namespace
  release-IsTotal d o = search shoot_totals depth 9

  deleted-IsTotal : (ns : String) (o : PvSnapshot) → IsTotal env (reconcile_deleted ns o)
  unfolding reconcile_deleted
  deleted-IsTotal ns o = search (shoot_totals, release-IsTotal, finalize-IsTotal) depth 14

  ready-IsTotal :
      (ns : String) (o : PvSnapshot) → HasCluster o.meta → IsTotal env (reconcile_ready ns o)
  unfolding reconcile_ready
  ready-IsTotal ns o h = search (shoot_totals, live-IsTotal, deleted-IsTotal) depth 9

  ensure-IsTotal : (req : NamespacedName) (o : PvSnapshot) → IsTotal env (ensure_finalizer req o)
  unfolding ensure_finalizer
  ensure-IsTotal req o = search shoot_totals depth 12

  module _ (sound : AllRead env Kind.pv_snapshot (λ o. HasCluster o.meta)) where
    reads :
        {B : Type 0} (name : NamespacedName) (fail : Error → M B) (go : PvSnapshot → M B)
        → ((e : Error) → IsTotal env (fail e))
        → ((o : PvSnapshot) → HasCluster o.meta → IsTotal env (go o))
        → IsTotal env (do got ← call (get Kind.pv_snapshot name); check got fail go)
    reads = read-IsTotal env Kind.pv_snapshot (λ o. HasCluster o.meta) sound

    initialize-IsTotal :
        (req : NamespacedName) (o : PvSnapshot) (cs : List Condition)
        → HasCluster o.meta
        → IsTotal env (initialize req o cs)
    unfolding initialize
    initialize-IsTotal req o [] h = search (shoot_totals, reads, ready-IsTotal) depth 14
    initialize-IsTotal req o (c ∷ cs) h = ready-IsTotal req.namespace o h

    pub reconcile-IsTotal : (req : NamespacedName) → IsTotal env (reconcile req)
    unfolding reconcile
    reconcile-IsTotal req =
        search (shoot_totals, reads, initialize-IsTotal, ensure-IsTotal) depth 14
