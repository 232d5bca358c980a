-- ===== src/Snapshots/Outcome.antt =====
-- snapshot_controller.go: handleSnapshotError and handleSnapshotSuccess.
use backup_restore_openstack.Prelude.{
  ◌*◌, String, ◌==◌, Bool, false, not, ◌&&◌, ◌||◌, Option, none, some, List, [], ◌∷◌, concat,
  if◌then◌else◌,
}
use backup_restore_openstack.Prelude.Int.{ℤ, pos, ◌+ℤ◌, leb_ℤ, wrap}
use backup_restore_openstack.Types.Meta.{
  Error, is_conflict, Annotations, annotation, is_set, put, delete, Condition, ConditionStatus,
  is_condition_false,
}
use backup_restore_openstack.Types.Snapshot.{Snapshot, SnapshotStatus, PvSnapshotItem}
use backup_restore_openstack.Effects.{
  Kind, M, pure, asks, unless, save, save_status, set_condition, ◌>>=◌, Result, Reconciled,
  no_requeue, requeue_now, after,
}
use backup_restore_openstack.Utils.Const.{minute, second, snapshot_reconcile_annotation}
use backup_restore_openstack.Utils.Decimal.{atoi, itoa}
use backup_restore_openstack.Snapshots.Status.{
  build_snapshot_status, commit_if_changed, update_snapshot_status,
}

-- an Available condition
abbrev pub available : ConditionStatus → String → String → Condition
available status reason message = record {
  kind = "Available";
  status = status;
  reason = reason;
  message = message;
}

abbrev pub with_conditions : Snapshot → List Condition → Snapshot
with_conditions s cs = record s { status = record s.status { conditions = cs } }

-- whether the Available condition already says that this failed
abbrev says_failed : Option Condition → String → Bool
says_failed none message = false
says_failed (some c) message = is_condition_false c.status && c.message == message

-- the end of handleSnapshotError, from the condition on
unfoldable pub report_failure : Snapshot → Error → M Reconciled
report_failure s e = do
  let message =
      concat ("Failed to create snapshot for PVC " ∷ s.spec.pvc_name ∷ ": " ∷ e.message ∷ [])
  known ← asks (λ env. env.find_status_condition s.status.conditions "Available")
  if says_failed known message then pure (after (pos minute), some e) else (do
    conditions ←
        set_condition s.status.conditions
          (available ConditionStatus.condition_false "CreateFailed" message)
    saved ← save_status Kind.snapshot (with_conditions s conditions)
    unless saved.1 (λ failed. pure (after (pos minute), some failed))
        (pure (after (pos minute), some e)))

unfoldable pub handle_snapshot_error : Snapshot → PvSnapshotItem → Error → M Reconciled
unfolding report_failure
handle_snapshot_error s item e = do
  saved ← update_snapshot_status s (build_snapshot_status s item "Failed")
  unless saved.1 (λ failed. pure (after (pos minute), some failed)) (report_failure saved.0 e)

-- `if apierrors.IsConflict(err) { return ctrl.Result{Requeue: true}, nil }; return other, err`
abbrev pub retry_on_conflict : Result → Error → M Reconciled
retry_on_conflict other e = if is_conflict e then pure (requeue_now, none) else pure (other, some e)

abbrev pub retries_key : String
retries_key = "snapshot.reconcile.retries"

abbrev parsed_count : Option String → ℤ
parsed_count none = pos 0
parsed_count (some s) = elim (atoi s) [ none ↦ pos 0 | some n ↦ n ]

-- the count of the retries, 0 where the annotation is missing or no number
unfoldable pub retry_count : Annotations → ℤ
retry_count m = parsed_count (annotation m retries_key)

-- the retry limit is reached
unfoldable pub handle_timeout : Snapshot → SnapshotStatus → M Reconciled
handle_timeout s new = do
  conditions ← set_condition s.status.conditions (
      available ConditionStatus.condition_false "Timeout"
        "Snapshot creation timed out after 5 retries")
  saved ←
      commit_if_changed (with_conditions s conditions)
        (record new { creation_status = "Failed"; creation_time = "Timeout exceeded" })
  unless saved.1 (retry_on_conflict no_requeue) (pure (no_requeue, none))

-- the status of a snapshot in progress
abbrev pub in_progress : PvSnapshotItem → SnapshotStatus → SnapshotStatus
in_progress item new = record new {
  creation_status = "InProgress";
  creation_time = if item.creation_time == "N/A" then "Creating..." else new.creation_time;
  ready_to_use = if not item.ready_to_use then false else new.ready_to_use;
}

-- the end of handleSnapshotSuccess on both paths: a condition and its commit
unfoldable pub commit_condition : Snapshot → Condition → (Snapshot → M Reconciled) → M Reconciled
commit_condition s c go = do
  conditions ← set_condition s.status.conditions c
  saved ← save_status Kind.snapshot (with_conditions s conditions)
  unless saved.1 (retry_on_conflict no_requeue) (go saved.0)

abbrev pub counted : Snapshot → ℤ → Snapshot
counted s n = record s {
  meta = record s.meta {
    annotations = put s.meta.annotations retries_key (itoa (wrap 64 (n +ℤ pos 1)));
  };
}

-- one more retry: the count first, then the status, then the condition
unfoldable pub handle_retry : Snapshot → PvSnapshotItem → SnapshotStatus → M Reconciled
unfolding commit_condition retry_count
handle_retry s item new = do
  kept ← save Kind.snapshot (counted s (retry_count s.meta.annotations))
  unless kept.1 (retry_on_conflict (after (pos minute))) (do
    saved ← commit_if_changed kept.0 (in_progress item new)
    unless saved.1 (retry_on_conflict no_requeue) (
        commit_condition saved.0
          (available ConditionStatus.condition_false "Creating" "Snapshot is being created")
          (λ _. pure (after (pos (15 * second)), none))))

-- the flag that asked for a reconciliation is taken off
unfoldable pub clear_annotation : Snapshot → M Reconciled
clear_annotation s =
    if is_set s.meta.annotations snapshot_reconcile_annotation
    then (do
      saved ← save Kind.snapshot (record s {
        meta = record s.meta {
          annotations = delete s.meta.annotations snapshot_reconcile_annotation;
        };
      })
      unless saved.1 (λ e. pure (requeue_now, some e)) (pure (no_requeue, none)))
    else pure (no_requeue, none)

unfoldable pub handle_ready : Snapshot → SnapshotStatus → M Reconciled
unfolding commit_condition clear_annotation
handle_ready s new = do
  saved ← commit_if_changed s new
  unless saved.1 (retry_on_conflict no_requeue) (
      commit_condition saved.0
        (available ConditionStatus.condition_true "Created"
          "Snapshot has been successfully created and is ready")
        clear_annotation)

-- snapshotReturn.CreationTime == "N/A" || !snapshotReturn.ReadyToUse
abbrev pub is_pending : PvSnapshotItem → Bool
is_pending item = item.creation_time == "N/A" || not item.ready_to_use

-- retryCount >= 5 && snapshotReturn.CreationTime == "N/A"
abbrev pub is_timed_out : Snapshot → PvSnapshotItem → Bool
is_timed_out s item = leb_ℤ (pos 5) (retry_count s.meta.annotations) && item.creation_time == "N/A"

unfoldable pub handle_snapshot_success : Snapshot → PvSnapshotItem → M Reconciled
unfolding handle_timeout handle_retry handle_ready retry_count
handle_snapshot_success s item =
    let new = build_snapshot_status s item "Succeeded" in
    if is_pending item
    then (if is_timed_out s item then handle_timeout s new else handle_retry s item new)
    else handle_ready s new
