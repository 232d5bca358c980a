-- ===== src/Syncs/MarkLaws.antt =====
-- What a round of the SyncSnapshot controller asks for.
use backup_restore_openstack.Prelude.{
  String, eq_refl, ◌≡◌, refl, Bool, true, Option, none, some, List, [], ◌∷◌, arith,
}
use backup_restore_openstack.Prelude.Dict.{lookup-insert}
use backup_restore_openstack.Types.Meta.{Error, Annotations, is_set, put}
use backup_restore_openstack.Types.Restore.{RestorePvc}
use backup_restore_openstack.Types.Lists.{Pvc, SyncSnapshot}
use backup_restore_openstack.Effects.{
  Kind, Request, create, update, update_status, patch, delete, create_pvc, dynamic_create,
  dynamic_delete, M, ◌>>=◌,
}
use backup_restore_openstack.Effects.Trace.{
  Issues, Issues-pure, Issues-panic, Issues-bind, Issues-check, Issues-unless, issues_rules,
}
use backup_restore_openstack.Utils.Const.{pvc_reconcile_annotation, restore_pvc_enabled_annotation}
use backup_restore_openstack.Utils.Kubeconfig.{get_secret_shoot_integrated_kubeconfig}
use backup_restore_openstack.Utils.Shoot.{deref}
use backup_restore_openstack.Syncs.Objects.{
  check_restore_pvc_in_shoot, get_seed_restored_pvc_list, get_pvc_list, reconcile_pvc_list,
  reconcile_restored_pvc, delete_restored_pvc,
}
use backup_restore_openstack.Syncs.Phases.{
  sync_restore, sync_restores, reconcile_sync_restore, sync_pvcs, reconcile_pvc,
  remove_sync_annotation,
}
use backup_restore_openstack.Syncs.Reconcile.{
  update_status_with_error, report_success, reconcile_live,
}

-- A patch marks a RestorePvc or a Pvc for another round; what is deleted is a RestorePvc; an update is of
-- a SyncSnapshot; nothing is created, and nothing is written in the shoot.
abbrev pub IsSyncRequest : Request → Type 0
IsSyncRequest (patch Kind.restore_pvc o) =
    is_set o.meta.annotations restore_pvc_enabled_annotation ≡ true
IsSyncRequest (patch Kind.pvc o) = is_set o.meta.annotations pvc_reconcile_annotation ≡ true
IsSyncRequest (patch k o) = ⊥
IsSyncRequest (delete Kind.restore_pvc o) = Unit
IsSyncRequest (delete k o) = ⊥
IsSyncRequest (update Kind.sync_snapshot o) = Unit
IsSyncRequest (update k o) = ⊥
IsSyncRequest (update_status Kind.sync_snapshot o) = Unit
IsSyncRequest (update_status k o) = ⊥
IsSyncRequest (create k o) = ⊥
IsSyncRequest (create_pvc ns p) = ⊥
IsSyncRequest (dynamic_create r ns o) = ⊥
IsSyncRequest (dynamic_delete r ns o) = ⊥
IsSyncRequest _ = Unit

put-is_set : (m : Annotations) (k : String) → is_set (put m k "true") k ≡ true
put-is_set none k = rw (eq_refl k) refl
put-is_set (some m) k = rw (lookup-insert k k "true" m, eq_refl k) refl

check-IsSyncRequest : (r : RestorePvc) → Issues IsSyncRequest (check_restore_pvc_in_shoot r)
unfolding check_restore_pvc_in_shoot
check-IsSyncRequest r = search issues_rules depth 9

restores-IsSyncRequest : (ns : String) → Issues IsSyncRequest (get_seed_restored_pvc_list ns)
unfolding get_seed_restored_pvc_list
restores-IsSyncRequest ns = search issues_rules depth 9

pvcs-IsSyncRequest : (ns : String) → Issues IsSyncRequest (get_pvc_list ns)
unfolding get_pvc_list
pvcs-IsSyncRequest ns = search issues_rules depth 9

mark_pvc-IsSyncRequest :
    (p : Pvc) → Issues IsSyncRequest (reconcile_pvc_list p pvc_reconcile_annotation "true")
unfolding reconcile_pvc_list
mark_pvc-IsSyncRequest p = search (issues_rules, put-is_set) depth 12

mark_restore-IsSyncRequest :
    (r : RestorePvc)
    → Issues IsSyncRequest (reconcile_restored_pvc r restore_pvc_enabled_annotation "true")
unfolding reconcile_restored_pvc
mark_restore-IsSyncRequest r = search (issues_rules, put-is_set) depth 12

delete-IsSyncRequest : (r : RestorePvc) → Issues IsSyncRequest (delete_restored_pvc r)
unfolding delete_restored_pvc
delete-IsSyncRequest r = search issues_rules depth 12

sync_restore-IsSyncRequest : (r : RestorePvc) (b : Bool) → Issues IsSyncRequest (sync_restore r b)
unfolding sync_restore
sync_restore-IsSyncRequest r b =
    search (issues_rules, mark_restore-IsSyncRequest, delete-IsSyncRequest)

sync_restores-IsSyncRequest : (rs : List RestorePvc) → Issues IsSyncRequest (sync_restores rs)
unfolding sync_restores
sync_restores-IsSyncRequest [] = Issues-pure none
sync_restores-IsSyncRequest (r ∷ rs) = Issues-bind _ _ (check-IsSyncRequest r) λ existed.
    Issues-check existed _ _ (λ e _. Issues-pure (some e))
      λ there _. Issues-bind _ _ (sync_restore-IsSyncRequest r there) λ failed.
        Issues-unless failed _ _ (λ e. Issues-pure (some e)) (sync_restores-IsSyncRequest rs)

sync_pvcs-IsSyncRequest : (ps : List Pvc) → Issues IsSyncRequest (sync_pvcs ps)
unfolding sync_pvcs
sync_pvcs-IsSyncRequest [] = Issues-pure none
sync_pvcs-IsSyncRequest (p ∷ ps) =
    let others = sync_pvcs-IsSyncRequest ps in
    let first = mark_pvc-IsSyncRequest p in search (issues_rules, first, others) depth 12

kubeconfig-IsSyncRequest :
    (ns : String) → Issues IsSyncRequest (get_secret_shoot_integrated_kubeconfig ns)
unfolding get_secret_shoot_integrated_kubeconfig ◌>>=◌
kubeconfig-IsSyncRequest ns = record { at = λ env t h. ground arith }

deref-IsSyncRequest :
    (q : Option String) (go : String → M (Option Error))
    → ((s : String) → Issues IsSyncRequest (go s))
    → Issues IsSyncRequest (deref q go)
deref-IsSyncRequest none go h = Issues-panic
deref-IsSyncRequest (some s) go h = h s

restore_phase-IsSyncRequest : (o : SyncSnapshot) → Issues IsSyncRequest (reconcile_sync_restore o)
unfolding reconcile_sync_restore
restore_phase-IsSyncRequest o =
    search
      (
        issues_rules, deref-IsSyncRequest, kubeconfig-IsSyncRequest, restores-IsSyncRequest,
        sync_restores-IsSyncRequest,
      )
      depth 12

pvc_phase-IsSyncRequest : (o : SyncSnapshot) → Issues IsSyncRequest (reconcile_pvc o)
unfolding reconcile_pvc
pvc_phase-IsSyncRequest o = search (issues_rules, pvcs-IsSyncRequest, sync_pvcs-IsSyncRequest)

annotation-IsSyncRequest : (o : SyncSnapshot) → Issues IsSyncRequest (remove_sync_annotation o)
unfolding remove_sync_annotation
annotation-IsSyncRequest o = search issues_rules

failure-IsSyncRequest :
    (o : SyncSnapshot) (e : Error) (s : String)
    → Issues IsSyncRequest (update_status_with_error o e s)
unfolding update_status_with_error
failure-IsSyncRequest o e s = search issues_rules depth 9

success-IsSyncRequest : (o : SyncSnapshot) → Issues IsSyncRequest (report_success o)
unfolding report_success
success-IsSyncRequest o = search issues_rules depth 9

-- A round for a SyncSnapshot that is not being deleted only marks RestorePvcs and Pvcs, deletes
-- RestorePvcs and writes the SyncSnapshot, whatever the API servers answer.
pub reconcile_live-IsSyncRequest : (o : SyncSnapshot) → Issues IsSyncRequest (reconcile_live o)
unfolding reconcile_live
reconcile_live-IsSyncRequest o =
    search
      (
        issues_rules, restore_phase-IsSyncRequest, pvc_phase-IsSyncRequest,
        annotation-IsSyncRequest, failure-IsSyncRequest, success-IsSyncRequest,
      )
      depth 12
