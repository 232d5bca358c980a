-- ===== src/System/SchedulerPhases.antt =====
-- schedulersnapshot_controller.go: the phases of a round and the stored count of uses.
use backup_restore_openstack.Prelude.{ℕ, String, Bool, Option, none, some, List, [], ◌∷◌}
use backup_restore_openstack.Prelude.Int.{ℤ}
use backup_restore_openstack.Types.Meta.{NamespacedName}
use backup_restore_openstack.Types.Snapshot.{Snapshot}
use backup_restore_openstack.Types.Kube.{CreateKubeSnapshot, CreateKubeSnapshotBackupTargets}
use backup_restore_openstack.Types.Scheduler.{
  SchedulerSnapshot, Scheduler, PvcSnapshotClass, SnapshotRetentionPolicy,
}
use backup_restore_openstack.Types.Lists.{PvcDetail}
use backup_restore_openstack.Effects.{Request, Answer, Schedule, Location, Env, M, pure}
use backup_restore_openstack.Effects.Triple.{Triple, Triple-then}
use backup_restore_openstack.Utils.Cron.{
  validate_cron_spec, validate_schedule_location, previous_snapshot_duration,
  next_snapshot_duration, convert_time_now_to_string, calculate_duration,
}
use backup_restore_openstack.Schedulers.Objects.{
  new_create_snapshot, new_create_config_snapshot, new_delete_snapshot, new_config_delete_snapshot,
  compare_backup_targets,
}
use backup_restore_openstack.Schedulers.Retention.{
  expire_config, expire_if, expire_configs, retain_configs, expire_aged, expire_snapshot,
  expire_snapshots, retain_by_unit, retain_snapshots,
}
use backup_restore_openstack.Schedulers.Rounds.{
  config_round, config_schedules, config_phase, pvc_round, pvc_schedules, pvc_phase,
}
use backup_restore_openstack.System.Frame
use backup_restore_openstack.System.Shoot.{shoot_frames}

module _ (env : Env) (key : NamespacedName) (first : ℤ) (n : ℤ) (m : ℕ) where
  abbrev Same : List Request → Type 0
  Same = Frame.Same env key first n m

  abbrev Keeps : {A : Type 0} → M A → Type 0
  Keeps a = Triple env Same Same a (λ _. Same)

  stops : {A : Type 0} (a : A) → Keeps (pure a)
  stops = Frame.pure-Keeps env key first n m

  age-Keeps : (text : String) → Keeps (calculate_duration text)
  unfolding calculate_duration
  age-Keeps text = search shoot_frames depth 12

  creation-Keeps : (p s d k : String) → Keeps (new_create_snapshot p s d k)
  unfolding new_create_snapshot convert_time_now_to_string
  creation-Keeps p s d k = search shoot_frames depth 14

  config_creation-Keeps : (o : SchedulerSnapshot) → Keeps (new_create_config_snapshot o)
  unfolding new_create_config_snapshot convert_time_now_to_string
  config_creation-Keeps o = search shoot_frames depth 14

  deletion-Keeps : (s d p k : String) → Keeps (new_delete_snapshot s d p k)
  unfolding new_delete_snapshot
  deletion-Keeps s d p k = search shoot_frames depth 9

  config_deletion-Keeps : (s d : String) → Keeps (new_config_delete_snapshot s d)
  unfolding new_config_delete_snapshot
  config_deletion-Keeps s d = search shoot_frames depth 9

  expire_if-Keeps : (b : Bool) (l : ℤ) (k : CreateKubeSnapshot) → Keeps (expire_if b l k)
  unfolding expire_if expire_config
  expire_if-Keeps b l k = search (shoot_frames, age-Keeps, config_deletion-Keeps) depth 14

  expire_configs-Keeps :
      (l : ℤ) (targets : CreateKubeSnapshotBackupTargets) (ks : List CreateKubeSnapshot)
      → Keeps (expire_configs l targets ks)
  unfolding expire_configs
  expire_configs-Keeps l targets [] = search shoot_frames depth 6
  expire_configs-Keeps l targets (k ∷ ks) = Triple-then _ _ (expire_if-Keeps _ l k) (λ times.
      Triple-then _ _
        (expire_configs-Keeps l (compare_backup_targets k.spec.backup_targets targets).1 ks)
        (λ rest. stops _))

  configs-Keeps : (o : SchedulerSnapshot) → Keeps (retain_configs o)
  unfolding retain_configs
  configs-Keeps o = search (shoot_frames, expire_configs-Keeps) depth 12

  aged-Keeps : (l : ℤ) (s : Snapshot) (d : ℤ) → Keeps (expire_aged l s d)
  unfolding expire_aged
  aged-Keeps l s d = search (shoot_frames, deletion-Keeps) depth 12

  snapshot-Keeps : (l : ℤ) (c : PvcSnapshotClass) (s : Snapshot) → Keeps (expire_snapshot l c s)
  unfolding expire_snapshot
  snapshot-Keeps l c s = search (shoot_frames, age-Keeps, aged-Keeps) depth 14

  snapshots-Keeps :
      (l : ℤ) (c : PvcSnapshotClass) (ss : List Snapshot) → Keeps (expire_snapshots l c ss)
  unfolding expire_snapshots
  snapshots-Keeps l c [] = search shoot_frames depth 6
  snapshots-Keeps l c (s ∷ ss) =
      Triple-then _ _ (snapshot-Keeps l c s)
        (λ times. Triple-then _ _ (snapshots-Keeps l c ss) (λ rest. stops _))

  unit-Keeps :
      (p : SnapshotRetentionPolicy) (c : PvcSnapshotClass) (ss : List Snapshot) (u : Option ℕ)
      → Keeps (retain_by_unit p c ss u)
  unfolding retain_by_unit
  unit-Keeps p c ss none = search shoot_frames depth 6
  unit-Keeps p c ss (some u) = search (shoot_frames, snapshots-Keeps) depth 9

  retain-Keeps : (o : SchedulerSnapshot) (c : PvcSnapshotClass) → Keeps (retain_snapshots o c)
  unfolding retain_snapshots
  retain-Keeps o c = search (shoot_frames, unit-Keeps) depth 12

  last-Keeps :
      (c : Answer Schedule) (l : Answer Location) (t : ℕ) → Keeps (previous_snapshot_duration c l t)
  unfolding previous_snapshot_duration
  last-Keeps c l t = search shoot_frames depth 12

  next-Keeps :
      (c : Answer Schedule) (l : Answer Location) (t : ℕ) → Keeps (next_snapshot_duration c l t)
  unfolding next_snapshot_duration
  next-Keeps c l t = search shoot_frames depth 12

  spec-Keeps : (s : String) → Keeps (validate_cron_spec s)
  unfolding validate_cron_spec
  spec-Keeps s = search shoot_frames depth 6

  location-Keeps : (s : String) → Keeps (validate_schedule_location s)
  unfolding validate_schedule_location
  location-Keeps s = search shoot_frames depth 6

  config_round-Keeps :
      (o : SchedulerSnapshot) (t : ℕ) (v : Bool) (c : Answer Schedule) (l : Answer Location) (d : ℤ)
      → Keeps (config_round o t v c l d)
  unfolding config_round
  config_round-Keeps o t v c l d = search (shoot_frames, last-Keeps, config_creation-Keeps) depth 12

  config_schedules-Keeps :
      (o : SchedulerSnapshot) (t : ℕ) (v : Bool) (ss : List Scheduler)
      → Keeps (config_schedules o t v ss)
  unfolding config_schedules
  config_schedules-Keeps o t v [] = search shoot_frames depth 6
  config_schedules-Keeps o t v (s ∷ ss) = Triple-then _ _ (spec-Keeps s.start) (λ c.
      Triple-then _ _ (location-Keeps s.location) (λ l. Triple-then _ _ (next-Keeps c l t) (λ d.
        Triple-then _ _ (config_round-Keeps o t _ c l d)
          (λ times. Triple-then _ _ (config_schedules-Keeps o t _ ss) (λ rest. stops _)))))

  pub config_phase-Keeps : (o : SchedulerSnapshot) (t : ℕ) → Keeps (config_phase o t)
  unfolding config_phase
  config_phase-Keeps o t = search (shoot_frames, config_schedules-Keeps, configs-Keeps) depth 12

  pvc_round-Keeps :
      (o : SchedulerSnapshot) (k : PvcSnapshotClass) (t : ℕ) (v : Bool) (c : Answer Schedule)
      (l : Answer Location) (d : ℤ)
      → Keeps (pvc_round o k t v c l d)
  unfolding pvc_round
  pvc_round-Keeps o k t v c l d = search (shoot_frames, last-Keeps, creation-Keeps) depth 12

  pvc_schedules-Keeps :
      (o : SchedulerSnapshot) (k : PvcSnapshotClass) (t : ℕ) (e v : Bool) (ss : List Scheduler)
      → Keeps (pvc_schedules o k t e v ss)
  unfolding pvc_schedules
  pvc_schedules-Keeps o k t e v [] = search shoot_frames depth 6
  pvc_schedules-Keeps o k t e v (s ∷ ss) = Triple-then _ _ (spec-Keeps s.start) (λ c.
      Triple-then _ _ (location-Keeps s.location) (λ l. Triple-then _ _ (next-Keeps c l t) (λ d.
        Triple-then _ _ (pvc_round-Keeps o k t _ c l d)
          (λ times. Triple-then _ _ (pvc_schedules-Keeps o k t e _ ss) (λ rest. stops _)))))

  pub pvc_phase-Keeps :
      (o : SchedulerSnapshot) (t : ℕ) (pvcs : List PvcDetail) (cs : List PvcSnapshotClass)
      → Keeps (pvc_phase o t pvcs cs)
  unfolding pvc_phase
  pvc_phase-Keeps o t pvcs [] = search shoot_frames depth 6
  pvc_phase-Keeps o t pvcs (c ∷ cs) = Triple-then _ _ (pvc_schedules-Keeps o c t _ _ _) (λ times.
      Triple-then _ _ (retain-Keeps o c)
        (λ kept. Triple-then _ _ (pvc_phase-Keeps o t pvcs cs) (λ rest. stops _)))
