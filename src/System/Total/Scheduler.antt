-- ===== src/System/Total/Scheduler.antt =====
-- schedulersnapshot_controller.go: when a round returns.
use backup_restore_openstack.Prelude.{◌≡◌, refl, ℕ, String, Option, none, some, List, [], ◌∷◌}
use backup_restore_openstack.Prelude.Int.{ℤ}
use backup_restore_openstack.Types.Meta.{Error, NamespacedName, Condition}
use backup_restore_openstack.Types.Scheduler.{SchedulerSnapshot}
use backup_restore_openstack.Types.Lists.{PvcDetail}
use backup_restore_openstack.Effects.{
  Kind, Request, update_status, Answer, ok, err, filled, save_status, get, check, call, ◌>>=◌, Env,
  M,
}
use backup_restore_openstack.Effects.Trace.{All}
use backup_restore_openstack.Effects.Triple.{Triple-if, Triple-then, Triple-bind, Triple-unless}
use backup_restore_openstack.Schedulers.Rounds.{config_phase}
use backup_restore_openstack.Schedulers.Reconcile.{
  Scheduled, finish, run_phases, reconcile_schedule_snapshot, commit, commit_outcome,
  reconcile_live, write_released, finalize, release_with_namespace, reconcile_deleted,
  reconcile_ready, initialize, ensure_finalizer, reconcile,
}
use backup_restore_openstack.Utils.Strings.{slice_from}
use backup_restore_openstack.Utils.Shoot.{get_namespace, get_pvc}
use backup_restore_openstack.System.Total.{
  totals, condition-IsTotal, pure-IsTotal, HasCluster, IsTotal, AllRead, read-IsTotal,
  deref-IsTotal,
}
use backup_restore_openstack.System.Total.Shoot.{
  AreListed, namespaces-IsTotal, AreClassed, pvcs-IsTotal, shoot_totals,
}
use backup_restore_openstack.System.Total.Schedule.{
  IsValid, config_phase-Leaves, then-Leaves, pvc_phase-IsTotal,
}

-- The namespace has a cluster, and every schedule is valid.
abbrev pub IsRunnable : Env → SchedulerSnapshot → Type 0
IsRunnable env o = HasCluster o.meta × All (IsValid env) o.spec.snapshot_scheduler.schedules

module _ (env : Env) (listed : AreListed env) (classed : AreClassed env) where
  named : IsTotal env get_namespace
  named = namespaces-IsTotal env listed

  classes : (ns : List String) → IsTotal env (get_pvc ns)
  classes = pvcs-IsTotal env classed

  finish-IsTotal : (o : SchedulerSnapshot) (times : List ℤ) → IsTotal env (finish o times)
  unfolding finish
  finish-IsTotal o times = search shoot_totals depth 9

  phases-IsTotal :
      (o : SchedulerSnapshot) (pvcs : List PvcDetail) (t : ℕ)
      → All (IsValid env) o.spec.snapshot_scheduler.schedules
      → IsTotal env (run_phases o pvcs t)
  unfolding run_phases
  phases-IsTotal o pvcs t v =
      Triple-if o.spec.enabled _ (finish o [])
        (λ h.
          then-Leaves env o (config_phase o t) _ v (config_phase-Leaves env o t v)
            (λ r w. search (totals, pvc_phase-IsTotal, finish-IsTotal) depth 9))
        (λ h. finish-IsTotal o [])

  scheduled-IsTotal :
      (o : SchedulerSnapshot) → IsRunnable env o → IsTotal env (reconcile_schedule_snapshot o)
  unfolding reconcile_schedule_snapshot
  scheduled-IsTotal o h =
      deref-IsTotal env (slice_from o.meta.namespace 4) _ h.0
        (λ cluster. search (shoot_totals, named, classes, phases-IsTotal) depth 16)

  outcome-IsTotal : (s : Scheduled) (e : Option Error) → IsTotal env (commit_outcome s e)
  unfolding commit_outcome commit
  outcome-IsTotal s none = search shoot_totals depth 9
  outcome-IsTotal s (some e) = search shoot_totals depth 9

  live-IsTotal : (o : SchedulerSnapshot) → IsRunnable env o → IsTotal env (reconcile_live o)
  unfolding reconcile_live
  live-IsTotal o h = search (shoot_totals, scheduled-IsTotal, outcome-IsTotal) depth 9

  written-IsTotal : (o : SchedulerSnapshot) → IsTotal env (write_released o)
  unfolding write_released
  written-IsTotal o = search shoot_totals depth 12

  finalize-IsTotal : (o : SchedulerSnapshot) → IsTotal env (finalize o)
  unfolding finalize
  finalize-IsTotal o = search (shoot_totals, written-IsTotal) depth 9

  release-IsTotal :
      (d : Option ℕ) (o : SchedulerSnapshot) → IsTotal env (release_with_namespace d o)
  unfolding release_with_namespace
  release-IsTotal d o = search shoot_totals depth 9

  deleted-IsTotal : (ns : String) (o : SchedulerSnapshot) → IsTotal env (reconcile_deleted ns o)
  unfolding reconcile_deleted
  deleted-IsTotal ns o = search (shoot_totals, release-IsTotal, finalize-IsTotal) depth 14

  ready-IsTotal :
      (ns : String) (o : SchedulerSnapshot) → IsRunnable env o → IsTotal env (reconcile_ready ns o)
  unfolding reconcile_ready
  ready-IsTotal ns o h = search (shoot_totals, live-IsTotal, deleted-IsTotal) depth 9

  ensure-IsTotal :
      (req : NamespacedName) (o : SchedulerSnapshot) → IsTotal env (ensure_finalizer req o)
  unfolding ensure_finalizer
  ensure-IsTotal req o = search shoot_totals depth 12

  module _ (sound : AllRead env Kind.scheduler_snapshot (IsRunnable env))
      (written : (t : List Request) (o p : SchedulerSnapshot)
        → env.answer t (update_status Kind.scheduler_snapshot o) ≡ ok p
        → IsRunnable env p) where
    reads :
        {B : Type 0} (name : NamespacedName) (fail : Error → M B) (go : SchedulerSnapshot → M B)
        → ((e : Error) → IsTotal env (fail e))
        → ((o : SchedulerSnapshot) → IsRunnable env o → IsTotal env (go o))
        → IsTotal env (do got ← call (get Kind.scheduler_snapshot name); check got fail go)
    reads = read-IsTotal env Kind.scheduler_snapshot (IsRunnable env) sound

    filled-IsRunnable :
        (o : SchedulerSnapshot) (a : Answer SchedulerSnapshot)
        → ((p : SchedulerSnapshot) → a ≡ ok p → IsRunnable env p)
        → IsRunnable env o
        → IsRunnable env (filled o a).0
    filled-IsRunnable o (ok p) h f = h p refl
    filled-IsRunnable o (err e) h f = f

    -- to go on with the object after a write of its status
    saved-then :
        {B : Type 0} (o : SchedulerSnapshot) (f : SchedulerSnapshot × Option Error → M B)
        → IsRunnable env o
        → ((p : SchedulerSnapshot) (e : Option Error) → IsRunnable env p → IsTotal env (f (p, e)))
        → IsTotal env (save_status Kind.scheduler_snapshot o >>= f)
    unfolding save_status
    saved-then o f h k =
        Triple-bind {Q = λ r _. IsRunnable env r.0} (save_status Kind.scheduler_snapshot o) f
          (record { at = λ t s. filled-IsRunnable o _ (written t o) h })
          (λ r. record { at = λ t h'. (k r.0 r.1 h').at t tt })

    initialize-IsTotal :
        (ns : String) (o : SchedulerSnapshot) (cs : List Condition)
        → IsRunnable env o
        → IsTotal env (initialize ns o cs)
    unfolding initialize
    initialize-IsTotal ns o [] h =
        search
          (Triple-then, condition-IsTotal, saved-then, Triple-unless, pure-IsTotal, ready-IsTotal)
          depth 12
    initialize-IsTotal ns o (c ∷ cs) h = ready-IsTotal ns o h

    pub reconcile-IsTotal : (req : NamespacedName) → IsTotal env (reconcile req)
    unfolding reconcile
    reconcile-IsTotal req =
        search (shoot_totals, reads, initialize-IsTotal, ensure-IsTotal) depth 14
