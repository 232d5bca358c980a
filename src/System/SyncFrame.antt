-- ===== src/System/SyncFrame.antt =====
-- syncsnapshot_controller.go: a round and the stored count of uses.
use backup_restore_openstack.Prelude.{ℕ, String, Bool, Option, some, List, [], ◌∷◌}
use backup_restore_openstack.Prelude.Int.{ℤ}
use backup_restore_openstack.Types.Meta.{Error, NamespacedName, Condition}
use backup_restore_openstack.Types.Restore.{RestorePvc}
use backup_restore_openstack.Types.Lists.{SyncSnapshot, Pvc}
use backup_restore_openstack.Effects.{Request, Env, M}
use backup_restore_openstack.Effects.Triple.{Triple, Triple-then, Triple-check}
use backup_restore_openstack.Utils.Const.{pvc_reconcile_annotation}
use backup_restore_openstack.Syncs.Objects.{
  check_restore_pvc_in_shoot, get_seed_restored_pvc_list, get_pvc_list, reconcile_pvc_list,
  reconcile_restored_pvc, delete_restored_pvc,
}
use backup_restore_openstack.Syncs.Phases.{
  sync_restore, sync_restores, reconcile_sync_restore, sync_pvcs, reconcile_pvc,
  remove_sync_annotation,
}
use backup_restore_openstack.Syncs.Reconcile.{
  update_status_with_error, report_success, reconcile_live, write_released, finalize,
  release_with_namespace, reconcile_deleted, reconcile_ready, initialize, ensure_finalizer,
  reconcile,
}
use backup_restore_openstack.System.Frame
use backup_restore_openstack.System.Shoot.{shoot_frames}

module _ (env : Env) (key : NamespacedName) (first : ℤ) (n : ℤ) (m : ℕ) where
  abbrev Same : List Request → Type 0
  Same = Frame.Same env key first n m

  abbrev Keeps : {A : Type 0} → M A → Type 0
  Keeps a = Triple env Same Same a (λ _. Same)

  check-Keeps : (r : RestorePvc) → Keeps (check_restore_pvc_in_shoot r)
  unfolding check_restore_pvc_in_shoot
  check-Keeps r = search shoot_frames depth 9

  mark-Keeps : (r : RestorePvc) (k v : String) → Keeps (reconcile_restored_pvc r k v)
  unfolding reconcile_restored_pvc
  mark-Keeps r k v = search shoot_frames depth 12

  delete-Keeps : (r : RestorePvc) → Keeps (delete_restored_pvc r)
  unfolding delete_restored_pvc
  delete-Keeps r = search shoot_frames depth 12

  restore-Keeps : (r : RestorePvc) (b : Bool) → Keeps (sync_restore r b)
  unfolding sync_restore
  restore-Keeps r b = search (shoot_frames, mark-Keeps, delete-Keeps) depth 9

  restores-Keeps : (rs : List RestorePvc) → Keeps (sync_restores rs)
  unfolding sync_restores
  restores-Keeps [] = search shoot_frames depth 6
  restores-Keeps (r ∷ rs) = Triple-then _ _ (check-Keeps r) (λ existed.
      Triple-check existed _ _ (λ e h. Frame.pure-Keeps env key first n m (some e))
        (λ there h.
          Frame.loop-Keeps env key first n m (sync_restore r there) (sync_restores rs)
            (restore-Keeps r there) (restores-Keeps rs)))

  pvc_mark-Keeps : (p : Pvc) (k v : String) → Keeps (reconcile_pvc_list p k v)
  unfolding reconcile_pvc_list
  pvc_mark-Keeps p k v = search shoot_frames depth 12

  pvcs-Keeps : (ps : List Pvc) → Keeps (sync_pvcs ps)
  unfolding sync_pvcs
  pvcs-Keeps [] = search shoot_frames depth 6
  pvcs-Keeps (p ∷ ps) =
      Frame.loop-Keeps env key first n m (reconcile_pvc_list p pvc_reconcile_annotation "true")
        (sync_pvcs ps) (pvc_mark-Keeps p pvc_reconcile_annotation "true") (pvcs-Keeps ps)

  restore_phase-Keeps : (o : SyncSnapshot) → Keeps (reconcile_sync_restore o)
  unfolding reconcile_sync_restore get_seed_restored_pvc_list
  restore_phase-Keeps o = search (shoot_frames, restores-Keeps) depth 14

  pvc_phase-Keeps : (o : SyncSnapshot) → Keeps (reconcile_pvc o)
  unfolding reconcile_pvc get_pvc_list
  pvc_phase-Keeps o = search (shoot_frames, pvcs-Keeps) depth 12

  removed-Keeps : (o : SyncSnapshot) → Keeps (remove_sync_annotation o)
  unfolding remove_sync_annotation
  removed-Keeps o = search shoot_frames depth 9

  failure-Keeps :
      (o : SyncSnapshot) (e : Error) (s : String) → Keeps (update_status_with_error o e s)
  unfolding update_status_with_error
  failure-Keeps o e s = search shoot_frames depth 12

  live-Keeps : (o : SyncSnapshot) → Keeps (reconcile_live o)
  unfolding reconcile_live report_success
  live-Keeps o =
      search (shoot_frames, restore_phase-Keeps, pvc_phase-Keeps, removed-Keeps, failure-Keeps)
        depth 14

  written-Keeps : (o : SyncSnapshot) → Keeps (write_released o)
  unfolding write_released
  written-Keeps o = search shoot_frames depth 12

  finalize-Keeps : (o : SyncSnapshot) → Keeps (finalize o)
  unfolding finalize
  finalize-Keeps o = search (shoot_frames, written-Keeps) depth 9

  release-Keeps : (d : Option ℕ) (o : SyncSnapshot) → Keeps (release_with_namespace d o)
  unfolding release_with_namespace
  release-Keeps d o = search shoot_frames depth 9

  deleted-Keeps : (ns : String) (o : SyncSnapshot) → Keeps (reconcile_deleted ns o)
  unfolding reconcile_deleted
  deleted-Keeps ns o = search (shoot_frames, release-Keeps, finalize-Keeps) depth 14

  ready-Keeps : (ns : String) (o : SyncSnapshot) → Keeps (reconcile_ready ns o)
  unfolding reconcile_ready
  ready-Keeps ns o = search (shoot_frames, live-Keeps, deleted-Keeps) depth 9

  ensure-Keeps : (req : NamespacedName) (o : SyncSnapshot) → Keeps (ensure_finalizer req o)
  unfolding ensure_finalizer
  ensure-Keeps req o = search shoot_frames depth 12

  initialize-Keeps :
      (req : NamespacedName) (o : SyncSnapshot) (cs : List Condition) → Keeps (initialize req o cs)
  unfolding initialize
  initialize-Keeps req o [] = search (shoot_frames, ready-Keeps) depth 14
  initialize-Keeps req o (c ∷ cs) = ready-Keeps _ o

  pub reconcile-Keeps : (req : NamespacedName) → Keeps (reconcile req)
  unfolding reconcile
  reconcile-Keeps req = search (shoot_frames, initialize-Keeps, ensure-Keeps) depth 12
