-- ===== src/KubeSnapshot/Status.antt =====
-- createkubesnapshot_controller.go, reportSnapshotPodStatus and updateStatus.
use backup_restore_openstack.Prelude.{
  zero, Bool, true, false, Option, none, some, List, [], ◌∷◌, concat, is_some, ltb, if◌then◌else◌,
}
use backup_restore_openstack.Prelude.Int.{ℤ, pos, ◌+ℤ◌, wrap}
use backup_restore_openstack.Types.Meta.{Error, is_not_found, wrapped}
use backup_restore_openstack.Types.Kube
use backup_restore_openstack.Types.Kube.{
  KubeSnapshotBackupStatus, KubeSnapshotJobStatus, CreateKubeSnapshotStatus, CreateKubeSnapshot,
  PodPhase, ContainerStatus, Waiting, Terminated, Pod,
}
use backup_restore_openstack.Effects.{Kind, get, update_status, M, pure, check, call, ◌>>=◌}
use backup_restore_openstack.Utils.Resources.{object_meta_to_name}
use backup_restore_openstack.KubeSnapshot.Pod.{build_kube_dump_pod, no_settings}

unfoldable pub backup_status_of : PodPhase → KubeSnapshotBackupStatus
backup_status_of PodPhase.pod_pending = KubeSnapshotBackupStatus.initializing
backup_status_of PodPhase.pod_running = KubeSnapshotBackupStatus.backing_up
backup_status_of PodPhase.pod_succeeded = KubeSnapshotBackupStatus.backup_succeeded
backup_status_of PodPhase.pod_failed = KubeSnapshotBackupStatus.backup_failed
backup_status_of PodPhase.pod_unknown = KubeSnapshotBackupStatus.backup_unknown
backup_status_of PodPhase.pod_phase_other = KubeSnapshotBackupStatus.backup_unset

abbrev exit_is_zero : ℤ → Bool
exit_is_zero (pos zero) = true
exit_is_zero _ = false

-- the switch on the container's state: waiting, running, terminated, in this order
abbrev report_terminated : Option Terminated → KubeSnapshotJobStatus → KubeSnapshotJobStatus
report_terminated none s = s
report_terminated (some t) s = record s {
  kube_dump_status =
      if exit_is_zero t.exit_code
      then Kube.KubeDumpStatus.dump_succeeded
      else Kube.KubeDumpStatus.dump_failed;
  kube_dump_message = t.message;
  kube_dump_reason = t.reason;
  finished_at = t.finished_at;
}

abbrev report_running : Bool → Option Terminated → KubeSnapshotJobStatus → KubeSnapshotJobStatus
report_running true t s = record s {
  kube_dump_status = Kube.KubeDumpStatus.dump_running;
  kube_dump_message = "kube-dump is running";
  kube_dump_reason = "Running";
}
report_running false t s = report_terminated t s

abbrev report_waiting :
    Option Waiting → Bool → Option Terminated → KubeSnapshotJobStatus → KubeSnapshotJobStatus
report_waiting (some w) r t s = record s {
  kube_dump_status = Kube.KubeDumpStatus.dump_initializing;
  kube_dump_message = w.message;
  kube_dump_reason = w.reason;
}
report_waiting none r t s = report_running r t s

abbrev report_container : List ContainerStatus → KubeSnapshotJobStatus → KubeSnapshotJobStatus
report_container [] s = record s { kube_dump_status = Kube.KubeDumpStatus.dump_unknown }
report_container (c ∷ cs) s = report_waiting c.waiting c.running c.terminated s

unfoldable pub report_snapshot_pod_status : Pod → KubeSnapshotJobStatus
unfolding backup_status_of
report_snapshot_pod_status pod = report_container pod.status.container_statuses (record {
  started_at = pod.meta.creation_timestamp;
  finished_at = 0;
  backup_status = backup_status_of pod.status.phase;
  backup_pod_message = pod.status.message;
  backup_pod_reason = pod.status.reason;
  kube_dump_status = Kube.KubeDumpStatus.dump_unset;
  kube_dump_restarts = pos 0;
  kube_dump_message = "";
  kube_dump_reason = "";
})

-- the switch that records a finished run
abbrev record_run :
    KubeSnapshotBackupStatus
    → KubeSnapshotJobStatus
    → CreateKubeSnapshotStatus
    → CreateKubeSnapshotStatus
record_run KubeSnapshotBackupStatus.backup_succeeded run s = record s {
  last_successful_run = some run;
}
record_run KubeSnapshotBackupStatus.backup_failed run s = record s { last_failed_run = some run }
record_run _ run s = s

-- what the pod that was found, or its absence, changes
unfoldable pub observe : Option Pod → CreateKubeSnapshotStatus → CreateKubeSnapshotStatus
unfolding report_snapshot_pod_status
observe none s = record s { ongoing_run = none }
observe (some pod) s =
    let run = report_snapshot_pod_status pod in
    record_run run.backup_status run (record s { ongoing_run = some run })

-- a.StartedAt.Time.After(b.StartedAt.Time), with both runs there
abbrev started_after : Option KubeSnapshotJobStatus → Option KubeSnapshotJobStatus → Bool
started_after (some a) (some b) = ltb b.started_at a.started_at
started_after _ _ = false

unfoldable pub is_failing : CreateKubeSnapshotStatus → Bool
is_failing s = started_after s.last_failed_run s.last_successful_run

unfoldable pub conclude : CreateKubeSnapshotStatus → CreateKubeSnapshotStatus
unfolding is_failing
conclude s =
    if is_some s.ongoing_run
    then record s {
      backup_status = KubeSnapshotBackupStatus.backing_up;
      message = "Backing up resources";
      reason = "BackingUp";
    }
    else if is_failing s
    then record s {
      backup_status = KubeSnapshotBackupStatus.backup_failed;
      message = "The last backup failed";
      reason = "LastBackupFailed";
    }
    else record s {
      backup_status = KubeSnapshotBackupStatus.backup_succeeded;
      message = "The last backup succeeded";
      reason = "LastBackupSucceeded";
    }

-- the last successful run is there, and the old one is not or began before it
abbrev newly_successful : Option KubeSnapshotJobStatus → Option KubeSnapshotJobStatus → Bool
newly_successful old none = false
newly_successful none (some new) = true
newly_successful (some old) (some new) = ltb old.started_at new.started_at

unfoldable pub count_run :
    CreateKubeSnapshotStatus → CreateKubeSnapshotStatus → CreateKubeSnapshotStatus
count_run old new =
    if newly_successful old.last_successful_run new.last_successful_run
    then record new { run_counter = wrap 32 (new.run_counter +ℤ pos 1) }
    else new

-- the status that updateStatus computes from the old one
unfoldable pub next_status : CreateKubeSnapshotStatus → Option Pod → CreateKubeSnapshotStatus
unfolding observe conclude count_run
next_status old pod = count_run old (conclude (observe pod old))

-- create.Status = *newStatus, and its commit, which fills the object from the answer
unfoldable pub commit_status :
    CreateKubeSnapshot → Option Pod → M (CreateKubeSnapshot × Option Error)
unfolding next_status
commit_status create pod = do
  let changed = record create { status = next_status create.status pod }
  updated ← call (update_status Kind.create_kube_snapshot changed)
  check updated
      (λ e. pure (
        changed,
        some (wrapped e (concat ("unable to commit createkubesnapshot status: " ∷ e.message ∷ []))),
      ))
      (λ stored. pure (stored, none))

-- the object after the call, and the error
unfoldable pub update_kube_status : CreateKubeSnapshot → M (CreateKubeSnapshot × Option Error)
unfolding commit_status
update_kube_status create = do
  got ← call (get Kind.pod (object_meta_to_name (build_kube_dump_pod create no_settings).meta))
  check got
      (λ e.
        if is_not_found e
        then commit_status create none
        else pure
            (create, some (wrapped e (concat ("unable to get kube-dump pod: " ∷ e.message ∷ [])))))
      (λ pod. commit_status create (some pod))
