-- ===== src/Schedulers/Retention.antt =====
-- schedulersnapshot_controller.go, the retention phases of ReconcileScheduleSnapshot. Each function
-- gives the durations that it appends to the requeue list.
use backup_restore_openstack.Prelude.{
  ℕ, String, ◌==◌, Bool, not, ◌&&◌, Option, none, some, List, [], ◌∷◌, ◌++◌, if◌then◌else◌,
}
use backup_restore_openstack.Prelude.Int.{ℤ, pos, ◌*ℤ◌, ◌-ℤ◌, ltb_ℤ, leb_ℤ, wrap}
use backup_restore_openstack.Types.Snapshot.{Snapshot}
use backup_restore_openstack.Types.Kube.{CreateKubeSnapshot, CreateKubeSnapshotBackupTargets}
use backup_restore_openstack.Types.Scheduler.{
  PvcSnapshotClass, SnapshotRetentionPolicy, SchedulerSnapshot,
}
use backup_restore_openstack.Effects.{
  Kind, list, Answer, ok, err, M, pure, asks, check, call, ◌>>=◌,
}
use backup_restore_openstack.Utils.Cron.{calculate_duration}
use backup_restore_openstack.Schedulers.Objects.{
  new_delete_snapshot, new_config_delete_snapshot, unit_duration, get_default_requeue_after,
  compare_backup_targets,
}

-- maxDuration * unitDuration, where a missing unit is zero
abbrev pub limit_of : SnapshotRetentionPolicy → ℕ → ℤ
limit_of policy unit = wrap 64 (policy.max *ℤ pos unit)

abbrev pub or_zero : Option ℕ → ℕ
or_zero none = 0
or_zero (some n) = n

-- whether the retention phase runs
abbrev pub is_retained : SnapshotRetentionPolicy → Bool
is_retained policy = not (policy.time_units == "") && ltb_ℤ (pos 0) policy.max

-- a config snapshot with the scheduler's targets: deleted, or the time that is left to it
unfoldable pub expire_config : ℤ → CreateKubeSnapshot → M (List ℤ)
expire_config limit k = do
  text ← asks (λ env. env.format_time "Local" k.meta.creation_timestamp)
  age ← calculate_duration text
  check age (λ e. pure [])
      λ d.
        if leb_ℤ limit d
        then (do failed ← new_config_delete_snapshot k.meta.name k.meta.namespace; pure [])
        else pure (wrap 64 (limit -ℤ d) ∷ [])

unfoldable pub expire_if : Bool → ℤ → CreateKubeSnapshot → M (List ℤ)
unfolding expire_config
expire_if same limit k = if same then expire_config limit k else pure []

-- with the scheduler's targets, which a comparison may sort
unfoldable pub expire_configs :
    ℤ
    → CreateKubeSnapshotBackupTargets
    → List CreateKubeSnapshot
    → M (List ℤ × CreateKubeSnapshotBackupTargets)
unfolding expire_if
expire_configs limit targets [] = pure ([], targets)
expire_configs limit targets (k ∷ ks) = do
  times ← expire_if (compare_backup_targets k.spec.backup_targets targets).0 limit k
  rest ← expire_configs limit (compare_backup_targets k.spec.backup_targets targets).1 ks
  pure (times ++ rest.0, rest.1)

abbrev pub with_targets : SchedulerSnapshot → CreateKubeSnapshotBackupTargets → SchedulerSnapshot
with_targets o targets = record o {
  spec = record o.spec {
    snapshot_scheduler = record o.spec.snapshot_scheduler { config_snapshot_class = targets };
  };
}

abbrev or_empty : {A : Type 0} → Answer (List A) → List A
or_empty (ok xs) = xs
or_empty (err e) = []

-- an unsupported unit is only logged here, and the listing's error too
unfoldable pub retain_configs : SchedulerSnapshot → M (List ℤ × SchedulerSnapshot)
unfolding expire_configs
retain_configs o =
    let policy = o.spec.snapshot_scheduler.retention_policy in
    if is_retained policy
    then (do
      listed ← call (list Kind.create_kube_snapshot o.meta.namespace [])
      kept ←
          expire_configs (limit_of policy (or_zero (unit_duration policy.time_units)))
            o.spec.snapshot_scheduler.config_snapshot_class
            (or_empty {A = CreateKubeSnapshot} listed)
      pure (
        kept.0 ++ get_default_requeue_after policy.max policy.time_units ∷ [],
        with_targets o kept.1,
      ))
    else pure ([], o)

-- the text whose age counts: the creation time of the VolumeSnapshot, or that of the Snapshot
abbrev pub creation_text : Snapshot → M String
creation_text s =
    if not (s.status.creation_time == "") && not (s.status.creation_time == "N/A")
    then pure s.status.creation_time
    else asks (λ env. env.time_string s.meta.creation_timestamp)

-- a snapshot past its time is deleted, unless it is in use
unfoldable pub expire_aged : ℤ → Snapshot → ℤ → M (List ℤ)
expire_aged limit s d =
    if leb_ℤ limit d
    then if ltb_ℤ (pos 0) s.spec.num_in_use then pure [] else (do
      failed ← new_delete_snapshot s.meta.name s.meta.namespace s.spec.pvc_name s.spec.namespace
      pure [])
    else pure (wrap 64 (limit -ℤ d) ∷ [])

unfoldable pub expire_snapshot : ℤ → PvcSnapshotClass → Snapshot → M (List ℤ)
unfolding expire_aged
expire_snapshot limit c s =
    if s.status.source_pvc_name == c.pvc_name
    then (do
      text ← creation_text s
      age ← calculate_duration text
      check age (λ e. pure []) (expire_aged limit s))
    else pure []

unfoldable pub expire_snapshots : ℤ → PvcSnapshotClass → List Snapshot → M (List ℤ)
unfolding expire_snapshot
expire_snapshots limit c [] = pure []
expire_snapshots limit c (s ∷ ss) = do
  times ← expire_snapshot limit c s
  rest ← expire_snapshots limit c ss
  pure (times ++ rest)

unfoldable pub retain_by_unit :
    SnapshotRetentionPolicy → PvcSnapshotClass → List Snapshot → Option ℕ → M (List ℤ)
unfolding expire_snapshots
retain_by_unit policy c snapshots none = pure []
retain_by_unit policy c snapshots (some unit) = do
  times ← expire_snapshots (limit_of policy unit) c snapshots
  pure (times ++ get_default_requeue_after policy.max policy.time_units ∷ [])

unfoldable pub retain_snapshots : SchedulerSnapshot → PvcSnapshotClass → M (List ℤ)
unfolding retain_by_unit
retain_snapshots o c =
    let policy = o.spec.snapshot_scheduler.retention_policy in
    if is_retained policy
    then (do
      listed ← call (list Kind.snapshot o.meta.namespace [])
      check listed (λ e. pure [])
          (λ snapshots. retain_by_unit policy c snapshots (unit_duration policy.time_units)))
    else pure []
