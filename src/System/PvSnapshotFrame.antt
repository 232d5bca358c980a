-- ===== src/System/PvSnapshotFrame.antt =====
-- pvsnapshot_controller.go: a round and the stored count of uses.
use backup_restore_openstack.Prelude.{ℕ, String, Option, List, [], ◌∷◌}
use backup_restore_openstack.Prelude.Int.{ℤ}
use backup_restore_openstack.Types.Meta.{NamespacedName, Condition}
use backup_restore_openstack.Types.Lists.{PvSnapshot}
use backup_restore_openstack.Types.Snapshot.{PvSnapshotItem}
use backup_restore_openstack.Effects.{Request, Env, M}
use backup_restore_openstack.Effects.Triple.{Triple, Triple-then, Triple-check}
use backup_restore_openstack.Listings.PvSnapshotList.{get_items, set_items, reconcile_pv_snapshot}
use backup_restore_openstack.Listings.PvSnapshotReconcile.{
  commit, report_failure, report_success, reconcile_live, write_released, finalize,
  release_with_namespace, reconcile_deleted, reconcile_ready, initialize, ensure_finalizer,
  reconcile,
}
use backup_restore_openstack.System.Frame
use backup_restore_openstack.System.Shoot
use backup_restore_openstack.System.Shoot.{shoot_frames}

module _ (env : Env) (key : NamespacedName) (first : ℤ) (n : ℤ) (m : ℕ) where
  abbrev Same : List Request → Type 0
  Same = Frame.Same env key first n m

  abbrev Keeps : {A : Type 0} → M A → Type 0
  Keeps a = Triple env Same Same a (λ _. Same)

  items-Keeps : (ns : List String) → Keeps (get_items ns)
  unfolding get_items
  items-Keeps [] = search shoot_frames depth 6
  items-Keeps (name ∷ ns) =
      Triple-then _ _ (Shoot.volume_snapshots-Keeps env key first n m name) (λ listed.
        Triple-check listed _ _ (λ e h. items-Keeps ns)
          (λ items h.
            Triple-then _ _ (items-Keeps ns) (λ more. Frame.pure-Keeps env key first n m _)))

  set-Keeps : (o : PvSnapshot) (items : List PvSnapshotItem) → Keeps (set_items o items)
  unfolding set_items
  set-Keeps o items = search shoot_frames depth 12

  listed-Keeps : (o : PvSnapshot) → Keeps (reconcile_pv_snapshot o)
  unfolding reconcile_pv_snapshot
  listed-Keeps o = search (shoot_frames, items-Keeps, set-Keeps) depth 16

  live-Keeps : (o : PvSnapshot) → Keeps (reconcile_live o)
  unfolding reconcile_live report_failure report_success commit
  live-Keeps o = search (shoot_frames, listed-Keeps) depth 14

  written-Keeps : (o : PvSnapshot) → Keeps (write_released o)
  unfolding write_released
  written-Keeps o = search shoot_frames depth 12

  finalize-Keeps : (o : PvSnapshot) → Keeps (finalize o)
  unfolding finalize
  finalize-Keeps o = search (shoot_frames, written-Keeps) depth 9

  release-Keeps : (d : Option ℕ) (o : PvSnapshot) → Keeps (release_with_namespace d o)
  unfolding release_with_namespace
  release-Keeps d o = search shoot_frames depth 9

  deleted-Keeps : (ns : String) (o : PvSnapshot) → Keeps (reconcile_deleted ns o)
  unfolding reconcile_deleted
  deleted-Keeps ns o = search (shoot_frames, release-Keeps, finalize-Keeps) depth 14

  ready-Keeps : (ns : String) (o : PvSnapshot) → Keeps (reconcile_ready ns o)
  unfolding reconcile_ready
  ready-Keeps ns o = search (shoot_frames, live-Keeps, deleted-Keeps) depth 9

  ensure-Keeps : (req : NamespacedName) (o : PvSnapshot) → Keeps (ensure_finalizer req o)
  unfolding ensure_finalizer
  ensure-Keeps req o = search shoot_frames depth 12

  initialize-Keeps :
      (req : NamespacedName) (o : PvSnapshot) (cs : List Condition) → Keeps (initialize req o cs)
  unfolding initialize
  initialize-Keeps req o [] = search (shoot_frames, ready-Keeps) depth 14
  initialize-Keeps req o (c ∷ cs) = ready-Keeps _ o

  pub reconcile-Keeps : (req : NamespacedName) → Keeps (reconcile req)
  unfolding reconcile
  reconcile-Keeps req = search (shoot_frames, initialize-Keeps, ensure-Keeps) depth 12
