-- ===== src/Syncs/Reconcile.antt =====
-- syncsnapshot_controller.go: Reconcile and what it writes to the status.
use backup_restore_openstack.Prelude.{
  ℕ, ◌*◌, String, Option, none, some, List, [], ◌∷◌, concat, if◌then◌else◌,
}
use backup_restore_openstack.Prelude.Int.{pos}
use backup_restore_openstack.Types.Meta.{
  Error, wrapped, NamespacedName, is_not_found, is_zero, ConditionStatus, Condition,
}
use backup_restore_openstack.Types.Lists.{SyncSnapshot}
use backup_restore_openstack.Effects.{
  Kind, get, M, pure, check, unless, call, save, save_status, has_finalizer, add_finalizer,
  drop_finalizer, set_condition, ◌>>=◌, Reconciled, no_requeue, requeue_now, after,
}
use backup_restore_openstack.Utils.Const.{minute, sync_snapshot_finalizer_name}
use backup_restore_openstack.Syncs.Phases.{
  reconcile_sync_restore, reconcile_pvc, remove_sync_annotation,
}

abbrev stopped : Error → M Reconciled
stopped e = pure (no_requeue, some e)

abbrev pub with_conditions : SyncSnapshot → List Condition → SyncSnapshot
with_conditions o cs = record o { status = record o.status { conditions = cs } }

-- the lists of missing and extra snapshots are nil here
unfoldable pub update_status_with_error : SyncSnapshot → Error → String → M Reconciled
update_status_with_error o e message = do
  conditions ← set_condition o.status.conditions (record {
    kind = "Available";
    status = ConditionStatus.condition_false;
    reason = "Reconciling";
    message = concat (message ∷ " (" ∷ o.meta.name ∷ "): " ∷ e.message ∷ []);
  })
  saved ← save_status Kind.sync_snapshot (record o {
    status = record { conditions = conditions; missing_snapshot = []; extra_snapshot = [] };
  })
  unless saved.1 stopped (stopped e)

unfoldable pub report_success : SyncSnapshot → M Reconciled
report_success o = do
  conditions ← set_condition o.status.conditions (record {
    kind = "Available";
    status = ConditionStatus.condition_true;
    reason = "Reconciling";
    message =
        concat
          ("PVSnapshot List " ∷ o.meta.name ∷ " in shoot " ∷ o.meta.namespace ∷ " is updated" ∷ []);
  })
  saved ← save_status Kind.sync_snapshot (with_conditions o conditions)
  unless saved.1 stopped (pure (after (pos (20 * minute)), none))

-- the errors of the two phases are only logged
unfoldable pub reconcile_live : SyncSnapshot → M Reconciled
unfolding reconcile_sync_restore reconcile_pvc remove_sync_annotation report_success
    update_status_with_error
reconcile_live o = do
  restored ← reconcile_sync_restore o
  marked ← reconcile_pvc o
  saved ← remove_sync_annotation o
  unless saved.1
      (λ e. update_status_with_error saved.0 e "Failed to remove Annotation for sync snapshot")
      (report_success saved.0)

unfoldable pub write_released : SyncSnapshot → M Reconciled
write_released o = do
  dropped ← drop_finalizer sync_snapshot_finalizer_name o.meta
  if dropped.1
      then (do
        saved ← save Kind.sync_snapshot (record o { meta = dropped.0 })
        unless saved.1 stopped (pure (no_requeue, none)))
      else pure (requeue_now, none)

unfoldable pub finalize : SyncSnapshot → M Reconciled
unfolding write_released
finalize o = do
  held ← has_finalizer sync_snapshot_finalizer_name o.meta
  if held then write_released o else pure (no_requeue, none)

unfoldable pub release_with_namespace : Option ℕ → SyncSnapshot → M (SyncSnapshot × Option Error)
release_with_namespace ns_deleted o = if is_zero ns_deleted then pure (o, none) else (do
  dropped ← drop_finalizer sync_snapshot_finalizer_name o.meta
  save Kind.sync_snapshot (record o { meta = dropped.0 }))

unfoldable pub reconcile_deleted : String → SyncSnapshot → M Reconciled
unfolding release_with_namespace finalize
reconcile_deleted ns o = do
  conditions ← set_condition o.status.conditions (record {
    kind = "Degraded";
    status = ConditionStatus.condition_unknown;
    reason = "Finalizing";
    message =
        concat
          ("Performing finalizer operations for the custom resource: " ∷ o.meta.name ∷ " " ∷ []);
  })
  saved ← save_status Kind.sync_snapshot (with_conditions o conditions)
  unless saved.1 stopped (do
    got ← call (get Kind.namespace (record { namespace = ns; name = ns }))
    check got stopped λ found. do
      released ← release_with_namespace found.meta.deletion_timestamp saved.0
      unless released.1 stopped (finalize released.0))

unfoldable pub reconcile_ready : String → SyncSnapshot → M Reconciled
unfolding reconcile_live reconcile_deleted
reconcile_ready ns o =
    if is_zero o.meta.deletion_timestamp then reconcile_live o else reconcile_deleted ns o

-- the first conditions, and the object fetched again
unfoldable pub initialize : NamespacedName → SyncSnapshot → List Condition → M Reconciled
unfolding reconcile_ready
initialize req o (c ∷ cs) = reconcile_ready req.namespace o
initialize req o [] = do
  conditions ← set_condition o.status.conditions (record {
    kind = "Available";
    status = ConditionStatus.condition_unknown;
    reason = "Reconciling";
    message = "Starting reconciliation";
  })
  saved ← save_status Kind.sync_snapshot (with_conditions o conditions)
  unless saved.1 stopped (do
    got ← call (get Kind.sync_snapshot req)
    check got stopped (reconcile_ready req.namespace))

unfoldable pub ensure_finalizer : NamespacedName → SyncSnapshot → M Reconciled
ensure_finalizer req o = do
  m ← add_finalizer sync_snapshot_finalizer_name o.meta
  saved ← save Kind.sync_snapshot (record o { meta = m })
  unless saved.1 stopped
      (do got ← call (get Kind.sync_snapshot req); check got stopped (λ _. pure (no_requeue, none)))

unfoldable pub reconcile : NamespacedName → M Reconciled
unfolding initialize ensure_finalizer
reconcile req = do
  got ← call (get Kind.sync_snapshot req)
  check got
      (λ e.
        if is_not_found e
        then pure (no_requeue, none)
        else stopped (wrapped e (concat ("error retrieving object from store: " ∷ e.message ∷ []))))
      λ o. do
        held ← has_finalizer sync_snapshot_finalizer_name o.meta
        if held then initialize req o o.status.conditions else ensure_finalizer req o
