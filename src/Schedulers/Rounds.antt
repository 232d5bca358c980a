-- ===== src/Schedulers/Rounds.antt =====
-- schedulersnapshot_controller.go, the schedules in ReconcileScheduleSnapshot. Each function gives
-- the durations that it appends to the requeue list.
use backup_restore_openstack.Prelude.{
  ℕ, ◌*◌, ◌==◌, Bool, true, false, ◌&&◌, ◌||◌, List, [], ◌∷◌, ◌++◌, is_some, if◌then◌else◌,
}
use backup_restore_openstack.Prelude.Int.{ℤ, pos, ltb_ℤ}
use backup_restore_openstack.Types.Scheduler.{PvcSnapshotClass, Scheduler, SchedulerSnapshot}
use backup_restore_openstack.Types.Lists.{PvcDetail}
use backup_restore_openstack.Effects.{Answer, ok, err, Schedule, Location, M, pure, ◌>>=◌}
use backup_restore_openstack.Utils.Const.{second}
use backup_restore_openstack.Utils.Cron.{
  validate_cron_spec, validate_schedule_location, next_snapshot_duration,
  previous_snapshot_duration,
}
use backup_restore_openstack.Schedulers.Objects.{new_create_snapshot, new_create_config_snapshot}
use backup_restore_openstack.Schedulers.Retention.{retain_configs, retain_snapshots}

abbrev pub is_ok : {A : Type 0} → Answer A → Bool
is_ok (ok a) = true
is_ok (err e) = false

-- whether the last time of a schedule was just now
unfoldable pub is_due : ℕ → ℤ → ℤ → Bool
is_due window last left = ltb_ℤ last (pos window) && ltb_ℤ (pos 0) left

unfoldable pub config_round :
    SchedulerSnapshot → ℕ → Bool → Answer Schedule → Answer Location → ℤ → M (List ℤ)
unfolding is_due
config_round o instant validated cron location left =
    if validated
    then (do
      last ← previous_snapshot_duration cron location instant
      if is_due second last left
          then (do failed ← new_create_config_snapshot o; pure (left ∷ []))
          else pure (left ∷ []))
    else pure []

-- the loop over the schedules; `validated` stays false once it is
unfoldable pub config_schedules : SchedulerSnapshot → ℕ → Bool → List Scheduler → M (List ℤ)
unfolding config_round
config_schedules o instant validated [] = pure []
config_schedules o instant validated (s ∷ ss) = do
  cron ← validate_cron_spec s.start
  location ← validate_schedule_location s.location
  left ← next_snapshot_duration cron location instant
  times ← config_round o instant (validated && is_ok cron && is_ok location) cron location left
  rest ← config_schedules o instant (validated && is_ok cron && is_ok location) ss
  pure (times ++ rest)

unfoldable pub config_phase : SchedulerSnapshot → ℕ → M (List ℤ × SchedulerSnapshot)
unfolding config_schedules
config_phase o instant =
    let targets = o.spec.snapshot_scheduler.config_snapshot_class in
    if targets.include_cluster_resources || is_some targets.include_namespaces
    then (do
      times ← config_schedules o instant true o.spec.snapshot_scheduler.schedules
      kept ← retain_configs o
      pure (times ++ kept.0, kept.1))
    else pure ([], o)

unfoldable pub pvc_existed : PvcSnapshotClass → List PvcDetail → Bool
pvc_existed c [] = false
pvc_existed c (p ∷ ps) =
    (c.pvc_name == p.pvc_name && c.namespace == p.namespace) || pvc_existed c ps

unfoldable pub pvc_round :
    SchedulerSnapshot
    → PvcSnapshotClass
    → ℕ
    → Bool
    → Answer Schedule
    → Answer Location
    → ℤ
    → M (List ℤ)
unfolding is_due
pvc_round o c instant wanted cron location left =
    if wanted
    then (do
      last ← previous_snapshot_duration cron location instant
      if is_due (10 * second) last left
          then (do
            failed ← new_create_snapshot c.pvc_name c.namespace o.meta.namespace "Scheduled"
            pure (left ∷ []))
          else pure (left ∷ []))
    else pure []

unfoldable pub pvc_schedules :
    SchedulerSnapshot → PvcSnapshotClass → ℕ → Bool → Bool → List Scheduler → M (List ℤ)
unfolding pvc_round
pvc_schedules o c instant existed validated [] = pure []
pvc_schedules o c instant existed validated (s ∷ ss) = do
  cron ← validate_cron_spec s.start
  location ← validate_schedule_location s.location
  left ← next_snapshot_duration cron location instant
  times ←
      pvc_round o c instant (existed && validated && is_ok cron && is_ok location) cron location
        left
  rest ← pvc_schedules o c instant existed (validated && is_ok cron && is_ok location) ss
  pure (times ++ rest)

unfoldable pub pvc_phase :
    SchedulerSnapshot → ℕ → List PvcDetail → List PvcSnapshotClass → M (List ℤ)
unfolding pvc_existed pvc_schedules
pvc_phase o instant pvcs [] = pure []
pvc_phase o instant pvcs (c ∷ cs) = do
  times ← pvc_schedules o c instant (pvc_existed c pvcs) true o.spec.snapshot_scheduler.schedules
  kept ← retain_snapshots o c
  rest ← pvc_phase o instant pvcs cs
  pure (times ++ kept ++ rest)
