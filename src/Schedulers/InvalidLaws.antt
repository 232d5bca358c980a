-- ===== src/Schedulers/InvalidLaws.antt =====
-- A scheduler with a schedule that is not valid.
use backup_restore_openstack.Prelude.{ℕ, ◌⊎◌, inl, inr, Bool, true, List, [], ◌∷◌, ◌&&◌}
use backup_restore_openstack.Types.Scheduler.{PvcSnapshotClass, Scheduler, SchedulerSnapshot}
use backup_restore_openstack.Types.Lists.{PvcDetail}
use backup_restore_openstack.Effects.{
  Request, Answer, ok, err, Schedule, Location, Env, Outcome, done, panicked, diverged, M, check,
  asks, ◌>>=◌,
}
use backup_restore_openstack.Effects.Triple.{Triple, Post, Triple-bind, Triple-panic}
use backup_restore_openstack.Utils.Cron.{
  validate_cron_spec, validate_schedule_location, with_schedule, next_snapshot_duration,
}
use backup_restore_openstack.Restores.ClaimLaws.{Any}
use backup_restore_openstack.Schedulers.Rounds.{is_ok, pvc_existed, pvc_schedules, pvc_phase}

abbrev pub IsErr : {A : Type 0} → Answer A → Type 0
IsErr (ok a) = ⊥
IsErr (err e) = Unit

-- Nothing is returned.
abbrev pub IsStopped : {A : Type 0} → Outcome A → Type 0
IsStopped (done a) = ⊥
IsStopped panicked = Unit
IsStopped diverged = Unit

-- The cron spec, or the location, is refused.
abbrev pub IsInvalid : Env → Scheduler → Type 0
IsInvalid env s = IsErr (env.parse_standard s.start) ⊎ IsErr (env.load_location s.location)

IsStopped-of :
    {A : Type 0} (r : Outcome A × List Request) → Post (λ _ _. ⊥) (λ _. Unit) r → IsStopped r.0
IsStopped-of (done a, t) h = h
IsStopped-of (panicked, t) h = tt
IsStopped-of (diverged, t) h = tt

module _ (env : Env) where
  abbrev Runs : {A : Type 0} → M A → Type 0
  Runs m = Triple env (λ _. Unit) (λ _. Unit) m (λ _ _. Unit)

  abbrev Stops : {A : Type 0} → M A → Type 0
  Stops m = Triple env (λ _. Unit) (λ _. Unit) m (λ _ _. ⊥)

  any-Post : {A : Type 0} (r : Outcome A × List Request) → Post (λ _ _. Unit) (λ _. Unit) r
  any-Post (done a, t) = tt
  any-Post (panicked, t) = tt
  any-Post (diverged, t) = tt

  -- every action runs, and one that is followed by an action that stops, stops
  runs : {A : Type 0} (m : M A) → Runs m
  runs m = record { at = λ t h. any-Post (m env t) }

  Stops-later : {A B : Type 0} (m : M A) (f : A → M B) → ((a : A) → Stops (f a)) → Stops (m >>= f)
  Stops-later m f h = Triple-bind {Q = λ _ _. Unit} m f (runs m) h

  Stops-first : {A B : Type 0} (m : M A) (f : A → M B) → Stops m → Stops (m >>= f)
  Stops-first m f h = Triple-bind {Q = λ _ _. ⊥} m f h (λ a. record { at = λ t h. absurd h })

  next_Stops :
      (cron : Answer Schedule) (location : Answer Location) (t : ℕ)
      → IsErr cron ⊎ IsErr location
      → Stops (next_snapshot_duration cron location t)
  unfolding next_snapshot_duration with_schedule check
  next_Stops (ok s) (ok l) t (inl h) = absurd h
  next_Stops (ok s) (ok l) t (inr h) = absurd h
  next_Stops (err e) (ok l) t h = Triple-panic (λ _ _. tt)
  next_Stops cron (err e) t h = Triple-panic (λ _ _. tt)

  asked : {A B : Type 0} (f : Env → A) (g : A → M B) → Stops (g (f env)) → Stops (asks f >>= g)
  unfolding asks ◌>>=◌
  asked f g h = record { at = λ t i. h.at t i }

  schedules_Stop :
      (o : SchedulerSnapshot) (c : PvcSnapshotClass) (t : ℕ) (existed validated : Bool)
      (ss : List Scheduler)
      → Any (IsInvalid env) ss
      → Stops (pvc_schedules o c t existed validated ss)
  unfolding pvc_schedules validate_cron_spec validate_schedule_location
  schedules_Stop o c t existed validated [] h = absurd h
  schedules_Stop o c t existed validated (s ∷ ss) (inl h) =
      asked (λ e. e.parse_standard s.start) _
        (asked (λ e. e.load_location s.location) _
          (Stops-first
            (next_snapshot_duration (env.parse_standard s.start) (env.load_location s.location) t) _
            (next_Stops (env.parse_standard s.start) (env.load_location s.location) t h)))
  schedules_Stop o c t existed validated (s ∷ ss) (inr h) = Stops-later _ _ λ cron.
      Stops-later _ _ λ location. Stops-later _ _ λ left. Stops-later _ _ λ times.
        Stops-first _ _
          (schedules_Stop o c t existed (validated && is_ok cron && is_ok location) ss h)

  -- Where a schedule has a cron spec or a location that is refused, a scheduler with a PVC class never
  -- ends its PVC phase: the round ends in a panic, or in a search that does not end, instead of passing
  -- over the schedule.
  pub pvc_phase-IsStopped :
      (o : SchedulerSnapshot) (t : ℕ) (pvcs : List PvcDetail) (c : PvcSnapshotClass)
      (cs : List PvcSnapshotClass) (trace : List Request)
      → Any (IsInvalid env) o.spec.snapshot_scheduler.schedules
      → IsStopped (pvc_phase o t pvcs (c ∷ cs) env trace).0
  unfolding pvc_phase
  pvc_phase-IsStopped o t pvcs c cs trace h = IsStopped-of _ (
      (Stops-first _ _
          (schedules_Stop o c t (pvc_existed c pvcs) true o.spec.snapshot_scheduler.schedules h)).at
        trace tt)
