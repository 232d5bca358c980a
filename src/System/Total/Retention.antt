-- ===== src/System/Total/Retention.antt =====
-- schedulersnapshot_controller.go: when the retention returns.
use backup_restore_openstack.Prelude.{◌≡◌, refl, ℕ, String, Bool, Option, none, some, List, [], ◌∷◌}
use backup_restore_openstack.Prelude.Int.{ℤ}
use backup_restore_openstack.Types.Snapshot.{Snapshot}
use backup_restore_openstack.Types.Kube.{CreateKubeSnapshot, CreateKubeSnapshotBackupTargets}
use backup_restore_openstack.Types.Scheduler.{
  SchedulerSnapshot, PvcSnapshotClass, SnapshotRetentionPolicy,
}
use backup_restore_openstack.Effects.{Env, M, pure}
use backup_restore_openstack.Effects.Triple.{Triple, Triple-pure, Triple-if, Triple-then}
use backup_restore_openstack.Utils.Cron.{convert_time_now_to_string, calculate_duration}
use backup_restore_openstack.Schedulers.Objects.{
  new_create_snapshot, new_create_config_snapshot, new_delete_snapshot, new_config_delete_snapshot,
  compare_backup_targets,
}
use backup_restore_openstack.Schedulers.Retention.{
  with_targets, expire_config, expire_if, expire_configs, retain_configs, expire_aged,
  expire_snapshot, expire_snapshots, retain_by_unit, retain_snapshots,
}
use backup_restore_openstack.System.Total.{Never, Always, IsTotal, call-IsTotal, pure-IsTotal}
use backup_restore_openstack.System.Total.Shoot.{shoot_totals}

module _ (env : Env) where
  age-IsTotal : (text : String) → IsTotal env (calculate_duration text)
  unfolding calculate_duration
  age-IsTotal text = search shoot_totals depth 12

  pub creation-IsTotal : (p s d k : String) → IsTotal env (new_create_snapshot p s d k)
  unfolding new_create_snapshot convert_time_now_to_string
  creation-IsTotal p s d k = search shoot_totals depth 14

  pub config_creation-IsTotal : (o : SchedulerSnapshot) → IsTotal env (new_create_config_snapshot o)
  unfolding new_create_config_snapshot convert_time_now_to_string
  config_creation-IsTotal o = search shoot_totals depth 14

  deletion-IsTotal : (s d p k : String) → IsTotal env (new_delete_snapshot s d p k)
  unfolding new_delete_snapshot
  deletion-IsTotal s d p k = search shoot_totals depth 9

  config_deletion-IsTotal : (s d : String) → IsTotal env (new_config_delete_snapshot s d)
  unfolding new_config_delete_snapshot
  config_deletion-IsTotal s d = search shoot_totals depth 9

  expire_if-IsTotal : (b : Bool) (l : ℤ) (k : CreateKubeSnapshot) → IsTotal env (expire_if b l k)
  unfolding expire_if expire_config
  expire_if-IsTotal b l k = search (shoot_totals, age-IsTotal, config_deletion-IsTotal) depth 14

  expire_configs-IsTotal :
      (l : ℤ) (targets : CreateKubeSnapshotBackupTargets) (ks : List CreateKubeSnapshot)
      → IsTotal env (expire_configs l targets ks)
  unfolding expire_configs
  expire_configs-IsTotal l targets [] = search shoot_totals depth 6
  expire_configs-IsTotal l targets (k ∷ ks) = Triple-then _ _ (expire_if-IsTotal _ l k) (λ times.
      Triple-then _ _
        (expire_configs-IsTotal l (compare_backup_targets k.spec.backup_targets targets).1 ks)
        (λ rest. pure-IsTotal env _))

  -- the object after it has the schedules of `o`
  abbrev pub Leaves : SchedulerSnapshot → M (List ℤ × SchedulerSnapshot) → Type 0
  Leaves o a =
      Triple env (Never env) (Always env) a
        (λ r _. r.1.spec.snapshot_scheduler.schedules ≡ o.spec.snapshot_scheduler.schedules)

  pub changed-Leaves :
      (o : SchedulerSnapshot) (times : List ℤ) (targets : CreateKubeSnapshotBackupTargets)
      → Leaves o (pure (times, with_targets o targets))
  changed-Leaves o times targets = Triple-pure (times, with_targets o targets) (λ t s. refl)

  pub same-Leaves : (o : SchedulerSnapshot) (times : List ℤ) → Leaves o (pure (times, o))
  same-Leaves o times = Triple-pure (times, o) (λ t s. refl)

  pub configs-Leaves : (o : SchedulerSnapshot) → Leaves o (retain_configs o)
  unfolding retain_configs
  configs-Leaves o =
      search
        (Triple-if, Triple-then, call-IsTotal, expire_configs-IsTotal, changed-Leaves, same-Leaves)
        depth 12

  aged-IsTotal : (l : ℤ) (s : Snapshot) (d : ℤ) → IsTotal env (expire_aged l s d)
  unfolding expire_aged
  aged-IsTotal l s d = search (shoot_totals, deletion-IsTotal) depth 12

  snapshot-IsTotal :
      (l : ℤ) (c : PvcSnapshotClass) (s : Snapshot) → IsTotal env (expire_snapshot l c s)
  unfolding expire_snapshot
  snapshot-IsTotal l c s = search (shoot_totals, age-IsTotal, aged-IsTotal) depth 14

  snapshots-IsTotal :
      (l : ℤ) (c : PvcSnapshotClass) (ss : List Snapshot) → IsTotal env (expire_snapshots l c ss)
  unfolding expire_snapshots
  snapshots-IsTotal l c [] = search shoot_totals depth 6
  snapshots-IsTotal l c (s ∷ ss) =
      Triple-then _ _ (snapshot-IsTotal l c s)
        (λ times. Triple-then _ _ (snapshots-IsTotal l c ss) (λ rest. pure-IsTotal env _))

  unit-IsTotal :
      (p : SnapshotRetentionPolicy) (c : PvcSnapshotClass) (ss : List Snapshot) (u : Option ℕ)
      → IsTotal env (retain_by_unit p c ss u)
  unfolding retain_by_unit
  unit-IsTotal p c ss none = search shoot_totals depth 6
  unit-IsTotal p c ss (some u) = search (shoot_totals, snapshots-IsTotal) depth 9

  pub retain-IsTotal :
      (o : SchedulerSnapshot) (c : PvcSnapshotClass) → IsTotal env (retain_snapshots o c)
  unfolding retain_snapshots
  retain-IsTotal o c = search (shoot_totals, unit-IsTotal) depth 12
