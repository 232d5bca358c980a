-- ===== src/System/Total/Sync.antt =====
-- syncsnapshot_controller.go: when a round returns.
use backup_restore_openstack.Prelude.{ℕ, String, Bool, Option, some, List, [], ◌∷◌}
use backup_restore_openstack.Types.Meta.{Error, NamespacedName, Condition}
use backup_restore_openstack.Types.Restore.{RestorePvc}
use backup_restore_openstack.Types.Lists.{SyncSnapshot, Pvc}
use backup_restore_openstack.Effects.{Kind, get, check, call, ◌>>=◌, Env, M}
use backup_restore_openstack.Effects.Triple.{Triple-then, Triple-check}
use backup_restore_openstack.Utils.Const.{pvc_reconcile_annotation}
use backup_restore_openstack.Syncs.Objects.{
  check_restore_pvc_in_shoot, get_seed_restored_pvc_list, get_pvc_list, reconcile_pvc_list,
  reconcile_restored_pvc, delete_restored_pvc,
}
use backup_restore_openstack.Syncs.Phases.{
  sync_restore, sync_restores, reconcile_sync_restore, sync_pvcs, reconcile_pvc,
  remove_sync_annotation,
}
use backup_restore_openstack.Syncs.Reconcile.{
  update_status_with_error, report_success, reconcile_live, write_released, finalize,
  release_with_namespace, reconcile_deleted, reconcile_ready, initialize, ensure_finalizer,
  reconcile,
}
use backup_restore_openstack.System.Total.{
  HasCluster, IsTotal, AllRead, read-IsTotal, deref-IsTotal, loop-IsTotal, pure-IsTotal,
}
use backup_restore_openstack.Utils.Strings.{slice_from}
use backup_restore_openstack.System.Total.Shoot.{shoot_totals}

module _ (env : Env) where
  check-IsTotal : (r : RestorePvc) → IsTotal env (check_restore_pvc_in_shoot r)
  unfolding check_restore_pvc_in_shoot
  check-IsTotal r = search shoot_totals depth 9

  mark-IsTotal : (r : RestorePvc) (k v : String) → IsTotal env (reconcile_restored_pvc r k v)
  unfolding reconcile_restored_pvc
  mark-IsTotal r k v = search shoot_totals depth 12

  delete-IsTotal : (r : RestorePvc) → IsTotal env (delete_restored_pvc r)
  unfolding delete_restored_pvc
  delete-IsTotal r = search shoot_totals depth 12

  restore-IsTotal : (r : RestorePvc) (b : Bool) → IsTotal env (sync_restore r b)
  unfolding sync_restore
  restore-IsTotal r b = search (shoot_totals, mark-IsTotal, delete-IsTotal) depth 9

  restores-IsTotal : (rs : List RestorePvc) → IsTotal env (sync_restores rs)
  unfolding sync_restores
  restores-IsTotal [] = search shoot_totals depth 6
  restores-IsTotal (r ∷ rs) = Triple-then _ _ (check-IsTotal r) (λ existed.
      Triple-check existed _ _ (λ e h. pure-IsTotal env (some e))
        (λ there h.
          loop-IsTotal env (sync_restore r there) (sync_restores rs) (restore-IsTotal r there)
            (restores-IsTotal rs)))

  pvc_mark-IsTotal : (p : Pvc) (k v : String) → IsTotal env (reconcile_pvc_list p k v)
  unfolding reconcile_pvc_list
  pvc_mark-IsTotal p k v = search shoot_totals depth 12

  pvcs-IsTotal : (ps : List Pvc) → IsTotal env (sync_pvcs ps)
  unfolding sync_pvcs
  pvcs-IsTotal [] = search shoot_totals depth 6
  pvcs-IsTotal (p ∷ ps) =
      loop-IsTotal env (reconcile_pvc_list p pvc_reconcile_annotation "true") (sync_pvcs ps)
        (pvc_mark-IsTotal p pvc_reconcile_annotation "true") (pvcs-IsTotal ps)

  restore_phase-IsTotal :
      (o : SyncSnapshot) → HasCluster o.meta → IsTotal env (reconcile_sync_restore o)
  unfolding reconcile_sync_restore get_seed_restored_pvc_list
  restore_phase-IsTotal o h =
      deref-IsTotal env (slice_from o.meta.namespace 4) _ h
        (λ cluster. search (shoot_totals, restores-IsTotal) depth 16)

  pvc_phase-IsTotal : (o : SyncSnapshot) → IsTotal env (reconcile_pvc o)
  unfolding reconcile_pvc get_pvc_list
  pvc_phase-IsTotal o = search (shoot_totals, pvcs-IsTotal) depth 12

  removed-IsTotal : (o : SyncSnapshot) → IsTotal env (remove_sync_annotation o)
  unfolding remove_sync_annotation
  removed-IsTotal o = search shoot_totals depth 9

  failure-IsTotal :
      (o : SyncSnapshot) (e : Error) (s : String) → IsTotal env (update_status_with_error o e s)
  unfolding update_status_with_error
  failure-IsTotal o e s = search shoot_totals depth 12

  live-IsTotal : (o : SyncSnapshot) → HasCluster o.meta → IsTotal env (reconcile_live o)
  unfolding reconcile_live report_success
  live-IsTotal o h =
      search
        (shoot_totals, restore_phase-IsTotal, pvc_phase-IsTotal, removed-IsTotal, failure-IsTotal)
        depth 14

  written-IsTotal : (o : SyncSnapshot) → IsTotal env (write_released o)
  unfolding write_released
  written-IsTotal o = search shoot_totals depth 12

  finalize-IsTotal : (o : SyncSnapshot) → IsTotal env (finalize o)
  unfolding finalize
  finalize-IsTotal o = search (shoot_totals, written-IsTotal) depth 9

  release-IsTotal : (d : Option ℕ) (o : SyncSnapshot) → IsTotal env (release_with_namespace d o)
  unfolding release_with_namespace
  release-IsTotal d o = search shoot_totals depth 9

  deleted-IsTotal : (ns : String) (o : SyncSnapshot) → IsTotal env (reconcile_deleted ns o)
  unfolding reconcile_deleted
  deleted-IsTotal ns o = search (shoot_totals, release-IsTotal, finalize-IsTotal) depth 14

  ready-IsTotal :
      (ns : String) (o : SyncSnapshot) → HasCluster o.meta → IsTotal env (reconcile_ready ns o)
  unfolding reconcile_ready
  ready-IsTotal ns o h = search (shoot_totals, live-IsTotal, deleted-IsTotal) depth 9

  ensure-IsTotal : (req : NamespacedName) (o : SyncSnapshot) → IsTotal env (ensure_finalizer req o)
  unfolding ensure_finalizer
  ensure-IsTotal req o = search shoot_totals depth 12

  module _ (sound : AllRead env Kind.sync_snapshot (λ o. HasCluster o.meta)) where
    reads :
        {B : Type 0} (name : NamespacedName) (fail : Error → M B) (go : SyncSnapshot → M B)
        → ((e : Error) → IsTotal env (fail e))
        → ((o : SyncSnapshot) → HasCluster o.meta → IsTotal env (go o))
        → IsTotal env (do got ← call (get Kind.sync_snapshot name); check got fail go)
    reads = read-IsTotal env Kind.sync_snapshot (λ o. HasCluster o.meta) sound

    initialize-IsTotal :
        (req : NamespacedName) (o : SyncSnapshot) (cs : List Condition)
        → HasCluster o.meta
        → IsTotal env (initialize req o cs)
    unfolding initialize
    initialize-IsTotal req o [] h = search (shoot_totals, reads, ready-IsTotal) depth 14
    initialize-IsTotal req o (c ∷ cs) h = ready-IsTotal req.namespace o h

    pub reconcile-IsTotal : (req : NamespacedName) → IsTotal env (reconcile req)
    unfolding reconcile
    reconcile-IsTotal req =
        search (shoot_totals, reads, initialize-IsTotal, ensure-IsTotal) depth 14
