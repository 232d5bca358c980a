-- ===== src/Schedulers/Reconcile.antt =====
-- schedulersnapshot_controller.go: ReconcileScheduleSnapshot and Reconcile.
use backup_restore_openstack.Prelude.{
  ℕ, ◌*◌, String, Option, none, some, List, [], ◌∷◌, ◌++◌, concat, if◌then◌else◌,
}
use backup_restore_openstack.Prelude.Int.{ℤ, pos}
use backup_restore_openstack.Types.Meta.{
  Error, plain, wrapped, NamespacedName, is_not_found, is_zero, is_set, delete, ConditionStatus,
  Condition,
}
use backup_restore_openstack.Types.Scheduler.{SchedulerSnapshot}
use backup_restore_openstack.Types.Lists.{PvcDetail}
use backup_restore_openstack.Effects.{
  Kind, get, connect, now, M, pure, check, unless, call, save, save_status, has_finalizer,
  add_finalizer, drop_finalizer, set_condition, ◌>>=◌, Result, Reconciled, no_requeue, requeue_now,
  after,
}
use backup_restore_openstack.Utils.Const.{
  minute, snapshot_finalizer_name, snapshot_reconcile_annotation,
}
use backup_restore_openstack.Utils.Strings.{slice_from}
use backup_restore_openstack.Utils.Sort.{sort_durations}
use backup_restore_openstack.Utils.Kubeconfig.{get_secret_shoot_integrated_kubeconfig}
use backup_restore_openstack.Utils.Shoot.{deref, get_namespace, get_pvc}
use backup_restore_openstack.Schedulers.Rounds.{config_phase, pvc_phase}

-- what ReconcileScheduleSnapshot returns, with the object that it was given
pub record Scheduled : Type 0 where
  pub object : SchedulerSnapshot
  pub requeue_after : ℤ
  pub error : Option Error

abbrev pub default_requeue : ℤ
default_requeue = pos (20 * minute)

abbrev failed : SchedulerSnapshot → List String → M Scheduled
failed o text =
    pure
      (record { object = o; requeue_after = default_requeue; error = some (plain (concat text)) })

abbrev pub first_or : ℤ → List ℤ → ℤ
first_or d [] = d
first_or d (e ∷ es) = e

-- the shortest of the requeue list
unfoldable pub pick_requeue : List ℤ → ℤ
unfolding sort_durations
pick_requeue times = first_or default_requeue (sort_durations times)

-- the annotation that asked for this round is taken off
unfoldable pub finish : SchedulerSnapshot → List ℤ → M Scheduled
unfolding pick_requeue
finish o times =
    if is_set o.meta.annotations snapshot_reconcile_annotation
    then (do
      saved ← save Kind.scheduler_snapshot (record o {
        meta = record o.meta {
          annotations = delete o.meta.annotations snapshot_reconcile_annotation;
        };
      })
      unless saved.1
          (λ e. pure (record {
            object = saved.0;
            requeue_after = pick_requeue times;
            error = some (
                plain (
                  concat (
                    "error to delete annotation snapshotv1beta1.mfke.io/deleteSnapshot-enabled in createSnapshot resource: ["
                    ∷ e.message ∷ "]" ∷ [])));
          }))
          (pure (record { object = saved.0; requeue_after = pick_requeue times; error = none })))
    else pure (record { object = o; requeue_after = pick_requeue times; error = none })

-- the phases, on the PVCs of the shoot
unfoldable pub run_phases : SchedulerSnapshot → List PvcDetail → ℕ → M Scheduled
unfolding finish
run_phases o pvcs instant =
    if o.spec.enabled
    then (do
      config ← config_phase o instant
      times ← pvc_phase config.1 instant pvcs config.1.spec.snapshot_scheduler.pvc_snapshot_class
      finish config.1 (config.0 ++ times))
    else finish o []

-- namespace[4:] panics on a shorter name
unfoldable pub reconcile_schedule_snapshot : SchedulerSnapshot → M Scheduled
unfolding run_phases
reconcile_schedule_snapshot o = deref (slice_from o.meta.namespace 4) λ cluster_name. do
  kubeconfig ← get_secret_shoot_integrated_kubeconfig o.meta.namespace
  check kubeconfig
      (λ e. failed o (
        "unable to get shoot secret data kubeconfig in ns " ∷ cluster_name ∷ ": " ∷ e.message ∷ []))
      λ config. do
        connected ← call (connect config cluster_name)
        check connected
            (λ e.
              failed o
                ("unable to create shoot client set " ∷ cluster_name ∷ ": " ∷ e.message ∷ []))
            λ _. do
              namespaces ← get_namespace
              pvcs ← get_pvc namespaces
              instant ← call now
              run_phases o pvcs instant

abbrev pub with_conditions : SchedulerSnapshot → List Condition → SchedulerSnapshot
with_conditions o cs = record o { conditions = cs }

-- a condition is set and the status written; `r` is returned with the error of the write, or else with
-- `e`
unfoldable pub commit : SchedulerSnapshot → Condition → Result → Option Error → M Reconciled
commit o c r e = do
  conditions ← set_condition o.conditions c
  saved ← save_status Kind.scheduler_snapshot (with_conditions o conditions)
  unless saved.1 (λ x. pure (r, some x)) (pure (r, e))

unfoldable pub commit_outcome : Scheduled → Option Error → M Reconciled
unfolding commit
commit_outcome s (some e) =
    commit s.object
      (record {
        kind = "Available";
        status = ConditionStatus.condition_false;
        reason = "Reconciling";
        message = concat (
            "Failed to reconcile for the custom resource (" ∷ s.object.meta.name ∷ "): ("
            ∷ e.message ∷ ")" ∷ []);
      })
      (after s.requeue_after) (some e)
commit_outcome s none =
    commit s.object
      (record {
        kind = "Available";
        status = ConditionStatus.condition_true;
        reason = "Reconciling";
        message = concat (
            "Snapshot schedule " ∷ s.object.meta.name ∷ " in shoot " ∷ s.object.meta.namespace
            ∷ " is reconciled" ∷ []);
      })
      (after s.requeue_after) none

unfoldable pub reconcile_live : SchedulerSnapshot → M Reconciled
unfolding commit_outcome
reconcile_live o = do
  scheduled ← reconcile_schedule_snapshot o
  commit_outcome scheduled scheduled.error

abbrev stopped : Error → M Reconciled
stopped e = pure (no_requeue, some e)

-- the finalizer is taken off and the object written
unfoldable pub write_released : SchedulerSnapshot → M Reconciled
write_released o = do
  dropped ← drop_finalizer snapshot_finalizer_name o.meta
  if dropped.1
      then (do
        saved ← save Kind.scheduler_snapshot (record o { meta = dropped.0 })
        unless saved.1 stopped (pure (no_requeue, none)))
      else pure (requeue_now, none)

unfoldable pub finalize : SchedulerSnapshot → M Reconciled
unfolding write_released
finalize o = do
  held ← has_finalizer snapshot_finalizer_name o.meta
  if held then write_released o else pure (no_requeue, none)

unfoldable pub release_with_namespace :
    Option ℕ → SchedulerSnapshot → M (SchedulerSnapshot × Option Error)
release_with_namespace ns_deleted o = if is_zero ns_deleted then pure (o, none) else (do
  dropped ← drop_finalizer snapshot_finalizer_name o.meta
  save Kind.scheduler_snapshot (record o { meta = dropped.0 }))

unfoldable pub reconcile_deleted : String → SchedulerSnapshot → M Reconciled
unfolding release_with_namespace finalize
reconcile_deleted ns o = do
  conditions ← set_condition o.conditions (record {
    kind = "Degraded";
    status = ConditionStatus.condition_unknown;
    reason = "Finalizing";
    message =
        concat
          ("Performing finalizer operations for the custom resource: " ∷ o.meta.name ∷ " " ∷ []);
  })
  saved ← save_status Kind.scheduler_snapshot (with_conditions o conditions)
  unless saved.1 stopped (do
    got ← call (get Kind.namespace (record { namespace = ns; name = ns }))
    check got stopped λ found. do
      released ← release_with_namespace found.meta.deletion_timestamp saved.0
      unless released.1 stopped (finalize released.0))

unfoldable pub reconcile_ready : String → SchedulerSnapshot → M Reconciled
unfolding reconcile_live reconcile_deleted
reconcile_ready ns o =
    if is_zero o.meta.deletion_timestamp then reconcile_live o else reconcile_deleted ns o

-- the first conditions; the round goes on with the object as it was written
unfoldable pub initialize : String → SchedulerSnapshot → List Condition → M Reconciled
unfolding reconcile_ready
initialize ns o (c ∷ cs) = reconcile_ready ns o
initialize ns o [] = do
  conditions ← set_condition o.conditions (record {
    kind = "Available";
    status = ConditionStatus.condition_unknown;
    reason = "Reconciling";
    message = "Starting reconciliation";
  })
  saved ← save_status Kind.scheduler_snapshot (with_conditions o conditions)
  unless saved.1 stopped (reconcile_ready ns saved.0)

unfoldable pub ensure_finalizer : NamespacedName → SchedulerSnapshot → M Reconciled
ensure_finalizer req o = do
  m ← add_finalizer snapshot_finalizer_name o.meta
  saved ← save Kind.scheduler_snapshot (record o { meta = m })
  unless saved.1 stopped (do
    got ← call (get Kind.scheduler_snapshot req)
    check got stopped (λ _. pure (no_requeue, none)))

unfoldable pub reconcile : NamespacedName → M Reconciled
unfolding initialize ensure_finalizer
reconcile req = do
  got ← call (get Kind.scheduler_snapshot req)
  check got
      (λ e.
        if is_not_found e
        then pure (no_requeue, none)
        else stopped (wrapped e (concat ("error retrieving object from store: " ∷ e.message ∷ []))))
      λ o. do
        held ← has_finalizer snapshot_finalizer_name o.meta
        if held then initialize req.namespace o o.conditions else ensure_finalizer req o
