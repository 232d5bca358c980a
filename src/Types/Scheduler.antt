-- ===== src/Types/Scheduler.antt =====
-- api/v1beta1/schedulersnapshot_types.go.
use backup_restore_openstack.Prelude.{String, Bool, List}
use backup_restore_openstack.Prelude.Int.{ℤ}
use backup_restore_openstack.Types.Meta.{ObjectMeta, Condition}
use backup_restore_openstack.Types.Kube.{CreateKubeSnapshotBackupTargets}

pub record PvcSnapshotClass : Type 0 where
  pub pvc_name : String
  pub namespace : String

pub record Scheduler : Type 0 where
  pub start : String
  pub location : String

pub record SnapshotRetentionPolicy : Type 0 where
  pub time_units : String
  pub max : ℤ

pub record SnapshotScheduler : Type 0 where
  pub pvc_snapshot_class : List PvcSnapshotClass
  pub config_snapshot_class : CreateKubeSnapshotBackupTargets
  pub schedules : List Scheduler
  pub retention_policy : SnapshotRetentionPolicy

pub record SchedulerSnapshotSpec : Type 0 where
  pub enabled : Bool
  pub snapshot_scheduler : SnapshotScheduler

pub record SchedulerSnapshot : Type 0 where
  pub meta : ObjectMeta
  pub spec : SchedulerSnapshotSpec
  pub conditions : List Condition
