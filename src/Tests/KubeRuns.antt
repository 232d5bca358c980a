-- ===== src/Tests/KubeRuns.antt =====
-- The theorems about backups on the small cluster.
use backup_restore_openstack.Prelude.{
  String, ◌≡◌, ◌≢◌, Option, none, some, is_some, eq_iff, if◌then◌else◌, arith,
}
use backup_restore_openstack.Prelude.Int.{pos, ◌+ℤ◌, wrap}
use backup_restore_openstack.Types.Kube.{KubeSnapshotBackupStatus, Pod, PodPhase, empty_kube_status}
use backup_restore_openstack.KubeSnapshot.Status.{next_status}
use backup_restore_openstack.KubeSnapshot.Counter.{
  is_before, is_later, run_counter-next_status, backup_status-next_status,
}
use backup_restore_openstack.Tests.Sample.{pod}

run_counter-next_status_example :
    (next_status empty_kube_status (some (pod "n1" PodPhase.pod_succeeded "img"))).run_counter ≡ (
      if is_before empty_kube_status.last_successful_run
        (some (pod "n1" PodPhase.pod_succeeded "img"))
      then wrap 32 (empty_kube_status.run_counter +ℤ pos 1)
      else empty_kube_status.run_counter)
run_counter-next_status_example =
    run_counter-next_status empty_kube_status (some (pod "n1" PodPhase.pod_succeeded "img"))

abbrev no_pod : Option Pod
no_pod = none

backup_status-next_status_example : (next_status empty_kube_status no_pod).backup_status ≡ (
    if is_some no_pod
    then KubeSnapshotBackupStatus.backing_up
    else if is_later empty_kube_status.last_failed_run empty_kube_status.last_successful_run
    then KubeSnapshotBackupStatus.backup_failed
    else KubeSnapshotBackupStatus.backup_succeeded)
backup_status-next_status_example = backup_status-next_status empty_kube_status no_pod

abbrev node : String
node = "n1"

named : node ≢ ""
named h = ground (arith, eq_iff node "", h)
