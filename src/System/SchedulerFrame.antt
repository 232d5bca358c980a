-- ===== src/System/SchedulerFrame.antt =====
-- schedulersnapshot_controller.go: a round and the stored count of uses.
use backup_restore_openstack.Prelude.{ℕ, String, Option, none, some, List, [], ◌∷◌}
use backup_restore_openstack.Prelude.Int.{ℤ}
use backup_restore_openstack.Types.Meta.{Error, NamespacedName, Condition}
use backup_restore_openstack.Types.Scheduler.{SchedulerSnapshot}
use backup_restore_openstack.Types.Lists.{PvcDetail}
use backup_restore_openstack.Effects.{Request, Env, M}
use backup_restore_openstack.Effects.Triple.{Triple}
use backup_restore_openstack.Schedulers.Reconcile.{
  Scheduled, finish, run_phases, reconcile_schedule_snapshot, commit, commit_outcome,
  reconcile_live, write_released, finalize, release_with_namespace, reconcile_deleted,
  reconcile_ready, initialize, ensure_finalizer, reconcile,
}
use backup_restore_openstack.System.Frame
use backup_restore_openstack.System.Shoot.{shoot_frames}
use backup_restore_openstack.System.SchedulerPhases.{config_phase-Keeps, pvc_phase-Keeps}

module _ (env : Env) (key : NamespacedName) (first : ℤ) (n : ℤ) (m : ℕ) where
  abbrev Same : List Request → Type 0
  Same = Frame.Same env key first n m

  abbrev Keeps : {A : Type 0} → M A → Type 0
  Keeps a = Triple env Same Same a (λ _. Same)

  finish-Keeps : (o : SchedulerSnapshot) (times : List ℤ) → Keeps (finish o times)
  unfolding finish
  finish-Keeps o times = search shoot_frames depth 9

  phases-Keeps :
      (o : SchedulerSnapshot) (pvcs : List PvcDetail) (t : ℕ) → Keeps (run_phases o pvcs t)
  unfolding run_phases
  phases-Keeps o pvcs t =
      search (shoot_frames, config_phase-Keeps, pvc_phase-Keeps, finish-Keeps) depth 12

  scheduled-Keeps : (o : SchedulerSnapshot) → Keeps (reconcile_schedule_snapshot o)
  unfolding reconcile_schedule_snapshot
  scheduled-Keeps o = search (shoot_frames, phases-Keeps) depth 16

  outcome-Keeps : (s : Scheduled) (e : Option Error) → Keeps (commit_outcome s e)
  unfolding commit_outcome commit
  outcome-Keeps s none = search shoot_frames depth 9
  outcome-Keeps s (some e) = search shoot_frames depth 9

  live-Keeps : (o : SchedulerSnapshot) → Keeps (reconcile_live o)
  unfolding reconcile_live
  live-Keeps o = search (shoot_frames, scheduled-Keeps, outcome-Keeps) depth 9

  written-Keeps : (o : SchedulerSnapshot) → Keeps (write_released o)
  unfolding write_released
  written-Keeps o = search shoot_frames depth 12

  finalize-Keeps : (o : SchedulerSnapshot) → Keeps (finalize o)
  unfolding finalize
  finalize-Keeps o = search (shoot_frames, written-Keeps) depth 9

  release-Keeps : (d : Option ℕ) (o : SchedulerSnapshot) → Keeps (release_with_namespace d o)
  unfolding release_with_namespace
  release-Keeps d o = search shoot_frames depth 9

  deleted-Keeps : (ns : String) (o : SchedulerSnapshot) → Keeps (reconcile_deleted ns o)
  unfolding reconcile_deleted
  deleted-Keeps ns o = search (shoot_frames, release-Keeps, finalize-Keeps) depth 14

  ready-Keeps : (ns : String) (o : SchedulerSnapshot) → Keeps (reconcile_ready ns o)
  unfolding reconcile_ready
  ready-Keeps ns o = search (shoot_frames, live-Keeps, deleted-Keeps) depth 9

  ensure-Keeps : (req : NamespacedName) (o : SchedulerSnapshot) → Keeps (ensure_finalizer req o)
  unfolding ensure_finalizer
  ensure-Keeps req o = search shoot_frames depth 12

  initialize-Keeps :
      (ns : String) (o : SchedulerSnapshot) (cs : List Condition) → Keeps (initialize ns o cs)
  unfolding initialize
  initialize-Keeps ns o [] = search (shoot_frames, ready-Keeps) depth 14
  initialize-Keeps ns o (c ∷ cs) = ready-Keeps ns o

  pub reconcile-Keeps : (req : NamespacedName) → Keeps (reconcile req)
  unfolding reconcile
  reconcile-Keeps req = search (shoot_frames, initialize-Keeps, ensure-Keeps) depth 12
