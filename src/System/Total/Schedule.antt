-- ===== src/System/Total/Schedule.antt =====
-- utils.go and schedulersnapshot_controller.go: the schedules of a scheduler that are valid.
use backup_restore_openstack.Prelude.{ℕ, ◌<◌, ◌≡◌, Bool, List, [], ◌∷◌, ◌++◌}
use backup_restore_openstack.Prelude.Int.{ℤ}
use backup_restore_openstack.Types.Scheduler.{SchedulerSnapshot, Scheduler, PvcSnapshotClass}
use backup_restore_openstack.Types.Lists.{PvcDetail}
use backup_restore_openstack.Effects.{
  ok, Schedule, Location, Outcome, done, pure, check, settle, ◌>>=◌, Env, M,
}
use backup_restore_openstack.Effects.Trace.{All}
use backup_restore_openstack.Effects.Triple.{Triple-if, Triple-then, Triple-bind}
use backup_restore_openstack.Utils.Cron.{
  with_schedule, previous_snapshot_duration, next_snapshot_duration, validate_cron_spec,
  validate_schedule_location,
}
use backup_restore_openstack.Utils.Cron.Laws.{previous-IsLast}
use backup_restore_openstack.Schedulers.Rounds.{
  config_round, config_schedules, config_phase, pvc_round, pvc_schedules, pvc_phase,
}
use backup_restore_openstack.System.Total.{IsTotal, pure-IsTotal, asked-IsTotal, totals}
use backup_restore_openstack.System.Total.Retention.{
  creation-IsTotal, config_creation-IsTotal, Leaves, configs-Leaves, same-Leaves, retain-IsTotal,
}

-- The cron library parses the spec, the location is known, and each time is followed by a later one.
abbrev pub IsValid : Env → Scheduler → Type 0
IsValid env s =
    (schedule : Schedule) × (location : Location) × (env.parse_standard s.start ≡ ok schedule)
    × (env.load_location s.location ≡ ok location)
    × ((u : ℕ) → u < schedule location u)

module _ (env : Env) where
  settled-IsTotal : {A : Type 0} (r : Outcome A) (a : A) → r ≡ done a → IsTotal env (settle r)
  unfolding settle
  settled-IsTotal r a e = rw e (record { at = λ t s. tt })

  last-IsTotal :
      (s : Scheduler) (t : ℕ)
      → IsValid env s
      → IsTotal env
          (previous_snapshot_duration (env.parse_standard s.start) (env.load_location s.location) t)
  unfolding previous_snapshot_duration with_schedule check
  last-IsTotal s t (schedule, location, p, l, later) =
      let (r, (e, _)) = previous-IsLast schedule location t later in
      rw (p, l) (Triple-then _ _ (settled-IsTotal _ r e) (λ last. pure-IsTotal env _))

  next-IsTotal :
      (s : Scheduler) (t : ℕ)
      → IsValid env s
      → IsTotal env
          (next_snapshot_duration (env.parse_standard s.start) (env.load_location s.location) t)
  unfolding next_snapshot_duration with_schedule check
  next-IsTotal s t (schedule, location, p, l, later) = rw (p, l) (pure-IsTotal env _)

  config_round-IsTotal :
      (o : SchedulerSnapshot) (t : ℕ) (v : Bool) (s : Scheduler) (d : ℤ)
      → IsValid env s
      → IsTotal env
          (config_round o t v (env.parse_standard s.start) (env.load_location s.location) d)
  unfolding config_round
  config_round-IsTotal o t v s d h = search (totals, last-IsTotal, config_creation-IsTotal) depth 12

  config_schedules-IsTotal :
      (o : SchedulerSnapshot) (t : ℕ) (ss : List Scheduler) (v : Bool)
      → All (IsValid env) ss
      → IsTotal env (config_schedules o t v ss)
  unfolding config_schedules validate_cron_spec validate_schedule_location
  config_schedules-IsTotal o t [] v h = search totals depth 6
  config_schedules-IsTotal o t (s ∷ ss) v (h, hs) = asked-IsTotal env _ _ (
      asked-IsTotal env _ _ (
        Triple-then _ _ (next-IsTotal s t h) (λ d.
          Triple-then _ _ (config_round-IsTotal o t _ s d h) (λ times.
            Triple-then _ _ (config_schedules-IsTotal o t ss _ hs) (λ rest. pure-IsTotal env _)))))

  pvc_round-IsTotal :
      (o : SchedulerSnapshot) (k : PvcSnapshotClass) (t : ℕ) (v : Bool) (s : Scheduler) (d : ℤ)
      → IsValid env s
      → IsTotal env
          (pvc_round o k t v (env.parse_standard s.start) (env.load_location s.location) d)
  unfolding pvc_round
  pvc_round-IsTotal o k t v s d h = search (totals, last-IsTotal, creation-IsTotal) depth 12

  pvc_schedules-IsTotal :
      (o : SchedulerSnapshot) (k : PvcSnapshotClass) (t : ℕ) (e : Bool) (ss : List Scheduler)
      (v : Bool)
      → All (IsValid env) ss
      → IsTotal env (pvc_schedules o k t e v ss)
  unfolding pvc_schedules validate_cron_spec validate_schedule_location
  pvc_schedules-IsTotal o k t e [] v h = search totals depth 6
  pvc_schedules-IsTotal o k t e (s ∷ ss) v (h, hs) = asked-IsTotal env _ _ (
      asked-IsTotal env _ _ (
        Triple-then _ _ (next-IsTotal s t h) (λ d.
          Triple-then _ _ (pvc_round-IsTotal o k t _ s d h) (λ times.
            Triple-then _ _ (pvc_schedules-IsTotal o k t e ss _ hs) (λ rest. pure-IsTotal env _)))))

  pub pvc_phase-IsTotal :
      (o : SchedulerSnapshot) (t : ℕ) (pvcs : List PvcDetail) (cs : List PvcSnapshotClass)
      → All (IsValid env) o.spec.snapshot_scheduler.schedules
      → IsTotal env (pvc_phase o t pvcs cs)
  unfolding pvc_phase
  pvc_phase-IsTotal o t pvcs [] h = search totals depth 6
  pvc_phase-IsTotal o t pvcs (c ∷ cs) h =
      Triple-then _ _ (pvc_schedules-IsTotal o c t _ _ _ h) (λ times.
        Triple-then _ _ (retain-IsTotal env o c)
          (λ kept. Triple-then _ _ (pvc_phase-IsTotal o t pvcs cs h) (λ rest. pure-IsTotal env _)))

  kept-Leaves :
      (o : SchedulerSnapshot) (times : List ℤ) (a : M (List ℤ × SchedulerSnapshot))
      → Leaves env o a
      → Leaves env o (a >>= λ kept. pure (times ++ kept.0, kept.1))
  unfolding pure
  kept-Leaves o times a h =
      Triple-bind
        {Q = λ r _. r.1.spec.snapshot_scheduler.schedules ≡ o.spec.snapshot_scheduler.schedules} a _
        h (λ kept. record { at = λ t e. e })

  pub config_phase-Leaves :
      (o : SchedulerSnapshot) (t : ℕ)
      → All (IsValid env) o.spec.snapshot_scheduler.schedules
      → Leaves env o (config_phase o t)
  unfolding config_phase
  config_phase-Leaves o t h =
      search
        (Triple-if, Triple-then, config_schedules-IsTotal, kept-Leaves, configs-Leaves, same-Leaves)
        depth 12

  -- to go on with the object that is left
  pub then-Leaves :
      {B : Type 0} (o : SchedulerSnapshot) (a : M (List ℤ × SchedulerSnapshot))
      (f : List ℤ × SchedulerSnapshot → M B)
      → All (IsValid env) o.spec.snapshot_scheduler.schedules
      → Leaves env o a
      → ((r : List ℤ × SchedulerSnapshot)
          → All (IsValid env) r.1.spec.snapshot_scheduler.schedules
          → IsTotal env (f r))
      → IsTotal env (a >>= f)
  then-Leaves o a f v h k =
      Triple-bind
        {Q = λ r _. r.1.spec.snapshot_scheduler.schedules ≡ o.spec.snapshot_scheduler.schedules} a f
        h (λ r. record { at = λ t e. (k r (rw e v)).at t tt })
