-- ===== src/KubeSnapshot/Counter.antt =====
-- The run counter and the summary that updateStatus keeps.
use backup_restore_openstack.Prelude.{
  ◌≡◌, Bool, true, false, Option, none, some, ltb, arith, is_some, if◌then◌else◌,
}
use backup_restore_openstack.Prelude.Int.{pos, ◌+ℤ◌, wrap}
use backup_restore_openstack.Types.Kube.{
  KubeSnapshotBackupStatus, KubeSnapshotJobStatus, CreateKubeSnapshotStatus, PodPhase, Pod,
}
use backup_restore_openstack.KubeSnapshot.Status.{next_status, is_failing}

abbrev pub is_succeeded : PodPhase → Bool
is_succeeded PodPhase.pod_succeeded = true
is_succeeded _ = false

-- `last` is no run, or one that began before the time
abbrev pub is_before : Option KubeSnapshotJobStatus → Option Pod → Bool
is_before last none = false
is_before none (some pod) = is_succeeded pod.status.phase
is_before (some run) (some pod) =
    if is_succeeded pod.status.phase then ltb run.started_at pod.meta.creation_timestamp else false

-- The counter goes up by one, as a 32-bit integer, exactly when a pod is there that has succeeded and
-- that was created after the start of the last successful run, if there is one; else it stays.
pub run_counter-next_status :
    (old : CreateKubeSnapshotStatus) (pod : Option Pod)
    → (next_status old pod).run_counter ≡ (
        if is_before old.last_successful_run pod
        then wrap 32 (old.run_counter +ℤ pos 1)
        else old.run_counter)
unfolding next_status
run_counter-next_status old pod = ground arith

-- A pod is counted once: to see the same pod again, or none, leaves the counter.
pub run_counter_once :
    (old : CreateKubeSnapshotStatus) (pod : Option Pod)
    → (next_status (next_status old pod) pod).run_counter ≡ (next_status old pod).run_counter
unfolding next_status
run_counter_once old pod = ground arith

-- both runs are known, and the first one began later
abbrev pub is_later : Option KubeSnapshotJobStatus → Option KubeSnapshotJobStatus → Bool
is_later none other = false
is_later (some a) none = false
is_later (some a) (some b) = ltb b.started_at a.started_at

-- The summary says "backing up" exactly while the pod is there. Without it, it says "failed" exactly
-- if a failed run and a successful run are known and the failed one began later, and else "succeeded".
pub backup_status-next_status :
    (old : CreateKubeSnapshotStatus) (pod : Option Pod)
    → (next_status old pod).backup_status ≡ (
        if is_some pod
        then KubeSnapshotBackupStatus.backing_up
        else if is_later old.last_failed_run old.last_successful_run
        then KubeSnapshotBackupStatus.backup_failed
        else KubeSnapshotBackupStatus.backup_succeeded)
unfolding next_status is_failing
backup_status-next_status old pod = ground arith

-- A shoot whose only runs have failed is reported as "succeeded" once the failed pod is gone.
pub first_failure_reported_as_success :
    (old : CreateKubeSnapshotStatus) (pod : Pod)
    → old.last_successful_run ≡ none
    → pod.status.phase ≡ PodPhase.pod_failed
    → let failed = next_status old (some pod) in
      (is_some failed.last_failed_run ≡ true)
      × ((next_status failed none).backup_status ≡ KubeSnapshotBackupStatus.backup_succeeded)
unfolding next_status
first_failure_reported_as_success old pod h f = ground arith
