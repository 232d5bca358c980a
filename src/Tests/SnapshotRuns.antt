-- ===== src/Tests/SnapshotRuns.antt =====
-- The theorems about snapshots on the small cluster.
use backup_restore_openstack.Prelude.{◌≤◌, refl, [], arith}
use backup_restore_openstack.Types.Meta.{put}
use backup_restore_openstack.Types.Snapshot.{Snapshot, PvSnapshotItem}
use backup_restore_openstack.Effects.Trace.{Issues}
use backup_restore_openstack.Effects.Returns.{Returns}
use backup_restore_openstack.Utils.Decimal.{atoi}
use backup_restore_openstack.Restores.ClaimLaws.{Any}
use backup_restore_openstack.Snapshots.Create.{reconcile_create_snapshot}
use backup_restore_openstack.Snapshots.CreateLaws.{IsFor, reconcile_create_snapshot-IsFor}
use backup_restore_openstack.Snapshots.OnceLaws.{creations, creations-reconcile_create_snapshot}
use backup_restore_openstack.Snapshots.Outcome.{retry_count, handle_snapshot_success}
use backup_restore_openstack.Snapshots.RetryLaws.{
  IsRequeued, handle_snapshot_success-IsRequeued, IsBare, timeout_loses_condition, Counts, IsCount,
  handle_snapshot_success-Counts,
}
use backup_restore_openstack.Tests.Sample.{env, snapshot, item}

-- a snapshot that was looked at five times
abbrev tried : Snapshot
tried = record snapshot {
  meta = record snapshot.meta {
    annotations = put snapshot.meta.annotations "snapshot.reconcile.retries" "5";
  };
}

reconcile_create_snapshot-IsFor_example :
    Returns (IsFor snapshot) (reconcile_create_snapshot snapshot)
reconcile_create_snapshot-IsFor_example = reconcile_create_snapshot-IsFor snapshot

handle_snapshot_success-IsRequeued_example :
    Returns IsRequeued (handle_snapshot_success snapshot item)
unfolding retry_count
handle_snapshot_success-IsRequeued_example =
    handle_snapshot_success-IsRequeued snapshot item refl refl

handle_snapshot_success-Counts_example :
    Any (IsCount 1) (handle_snapshot_success snapshot item env []).1
    × Issues (Counts 1) (handle_snapshot_success snapshot item)
unfolding retry_count
handle_snapshot_success-Counts_example =
    handle_snapshot_success-Counts env [] snapshot item 0 (omega arith) refl refl

-- a VolumeSnapshot whose creation time is not known
abbrev unknown_item : PvSnapshotItem
unknown_item = record item { creation_time = "N/A" }

timeout_loses_condition_example : Issues IsBare (handle_snapshot_success tried unknown_item)
unfolding retry_count atoi
timeout_loses_condition_example = timeout_loses_condition tried unknown_item refl

creations-reconcile_create_snapshot_example :
    creations (reconcile_create_snapshot snapshot env []).1 ≤ 1
creations-reconcile_create_snapshot_example = creations-reconcile_create_snapshot env snapshot
