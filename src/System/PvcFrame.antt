-- ===== src/System/PvcFrame.antt =====
-- pvc_controller.go: a round and the stored count of uses.
use backup_restore_openstack.Prelude.{ℕ, String, Option, List, [], ◌∷◌}
use backup_restore_openstack.Prelude.Int.{ℤ}
use backup_restore_openstack.Types.Meta.{NamespacedName, Condition}
use backup_restore_openstack.Types.Lists.{Pvc, PvcDetail}
use backup_restore_openstack.Effects.{Request, Env, M}
use backup_restore_openstack.Effects.Triple.{Triple}
use backup_restore_openstack.Listings.PvcList.{clear_annotation, write_list, reconcile_pvc}
use backup_restore_openstack.Listings.PvcReconcile.{
  commit, report_failure, report_success, reconcile_live, write_released, finalize,
  release_with_namespace, reconcile_deleted, reconcile_ready, initialize, ensure_finalizer,
  reconcile,
}
use backup_restore_openstack.System.Frame
use backup_restore_openstack.System.Shoot.{shoot_frames}

module _ (env : Env) (key : NamespacedName) (first : ℤ) (n : ℤ) (m : ℕ) where
  abbrev Same : List Request → Type 0
  Same = Frame.Same env key first n m

  abbrev Keeps : {A : Type 0} → M A → Type 0
  Keeps a = Triple env Same Same a (λ _. Same)

  clear-Keeps : (o : Pvc) → Keeps (clear_annotation o)
  unfolding clear_annotation
  clear-Keeps o = search shoot_frames depth 9

  list-Keeps : (o : Pvc) (pvcs : List PvcDetail) → Keeps (write_list o pvcs)
  unfolding write_list
  list-Keeps o pvcs = search (shoot_frames, clear-Keeps) depth 9

  pvcs-Keeps : (o : Pvc) → Keeps (reconcile_pvc o)
  unfolding reconcile_pvc
  pvcs-Keeps o = search (shoot_frames, list-Keeps) depth 14

  live-Keeps : (o : Pvc) → Keeps (reconcile_live o)
  unfolding reconcile_live report_failure report_success commit
  live-Keeps o = search (shoot_frames, pvcs-Keeps) depth 14

  written-Keeps : (o : Pvc) → Keeps (write_released o)
  unfolding write_released
  written-Keeps o = search shoot_frames depth 12

  finalize-Keeps : (o : Pvc) → Keeps (finalize o)
  unfolding finalize
  finalize-Keeps o = search (shoot_frames, written-Keeps) depth 9

  release-Keeps : (d : Option ℕ) (o : Pvc) → Keeps (release_with_namespace d o)
  unfolding release_with_namespace
  release-Keeps d o = search shoot_frames depth 9

  deleted-Keeps : (ns : String) (o : Pvc) → Keeps (reconcile_deleted ns o)
  unfolding reconcile_deleted
  deleted-Keeps ns o = search (shoot_frames, release-Keeps, finalize-Keeps) depth 14

  ready-Keeps : (ns : String) (o : Pvc) → Keeps (reconcile_ready ns o)
  unfolding reconcile_ready
  ready-Keeps ns o = search (shoot_frames, live-Keeps, deleted-Keeps) depth 9

  ensure-Keeps : (req : NamespacedName) (o : Pvc) → Keeps (ensure_finalizer req o)
  unfolding ensure_finalizer
  ensure-Keeps req o = search shoot_frames depth 12

  initialize-Keeps :
      (req : NamespacedName) (o : Pvc) (cs : List Condition) → Keeps (initialize req o cs)
  unfolding initialize
  initialize-Keeps req o [] = search (shoot_frames, ready-Keeps) depth 14
  initialize-Keeps req o (c ∷ cs) = ready-Keeps _ o

  pub reconcile-Keeps : (req : NamespacedName) → Keeps (reconcile req)
  unfolding reconcile
  reconcile-Keeps req = search (shoot_frames, initialize-Keeps, ensure-Keeps) depth 12
