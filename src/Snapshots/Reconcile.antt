-- ===== src/Snapshots/Reconcile.antt =====
-- snapshot_controller.go, Reconcile.
use backup_restore_openstack.Prelude.{
  String, ℕ, Option, none, some, List, [], ◌∷◌, concat, if◌then◌else◌,
}
use backup_restore_openstack.Types.Meta.{
  NamespacedName, is_not_found, is_zero, wrapped, ConditionStatus, Condition,
}
use backup_restore_openstack.Types.Snapshot.{Snapshot}
use backup_restore_openstack.Effects.{
  Kind, get, M, pure, check, unless, call, save, save_status, has_finalizer, add_finalizer,
  set_condition, ◌>>=◌, Reconciled, no_requeue,
}
use backup_restore_openstack.Utils.Const.{snapshot_finalizer_name}
use backup_restore_openstack.Snapshots.Create.{Created, reconcile_create_snapshot}
use backup_restore_openstack.Snapshots.Outcome.{
  available, with_conditions, retry_on_conflict, handle_snapshot_error, handle_snapshot_success,
}
use backup_restore_openstack.Snapshots.Delete.{
  remove_finalizer_and_update, delete_snapshot_with_finalizer,
}

unfoldable pub handle_created : Created → M Reconciled
handle_created c =
    unless c.error (handle_snapshot_error c.object c.item) (handle_snapshot_success c.object c.item)

-- the object is not being deleted
unfoldable pub reconcile_live : Snapshot → M Reconciled
unfolding handle_created
reconcile_live s = do c ← reconcile_create_snapshot s; handle_created c

-- the namespace is there: on its deletion the finalizer goes at once
unfoldable pub finalize_in : Snapshot → Option ℕ → M Reconciled
finalize_in s ns_deleted =
    if is_zero ns_deleted
    then (do
      held ← has_finalizer snapshot_finalizer_name s.meta
      if held then delete_snapshot_with_finalizer s else pure (no_requeue, none))
    else remove_finalizer_and_update s

-- the object is being deleted
unfoldable pub reconcile_deleted : String → Snapshot → M Reconciled
unfolding finalize_in
reconcile_deleted ns s = do
  conditions ← set_condition s.status.conditions (record {
    kind = "Degraded";
    status = ConditionStatus.condition_unknown;
    reason = "Finalizing";
    message =
        concat ("Performing finalizer operations for the custom resource: " ∷ s.meta.name ∷ []);
  })
  saved ← save_status Kind.snapshot (with_conditions s conditions)
  unless saved.1 (λ e. pure (no_requeue, some e))
      (do
        got ← call (get Kind.namespace (record { namespace = ""; name = ns }))
        check got (λ e. pure (no_requeue, some e))
            (λ found. finalize_in saved.0 found.meta.deletion_timestamp))

unfoldable pub initialize : Snapshot → M Reconciled
initialize s = do
  conditions ←
      set_condition s.status.conditions
        (available ConditionStatus.condition_unknown "Reconciling" "Starting reconciliation")
  saved ← save_status Kind.snapshot (with_conditions s conditions)
  unless saved.1 (retry_on_conflict no_requeue) (pure (no_requeue, none))

unfoldable pub ensure_finalizer : Snapshot → M Reconciled
ensure_finalizer s = do
  m ← add_finalizer snapshot_finalizer_name s.meta
  saved ← save Kind.snapshot (record s { meta = m })
  unless saved.1 (λ e. pure (no_requeue, some e)) (pure (no_requeue, none))

-- the branches of Reconcile on the object that was found
unfoldable pub reconcile_found : String → Snapshot → List Condition → M Reconciled
unfolding initialize reconcile_live reconcile_deleted
reconcile_found ns s [] = initialize s
reconcile_found ns s (c ∷ cs) =
    if is_zero s.meta.deletion_timestamp then reconcile_live s else reconcile_deleted ns s

unfoldable pub reconcile : NamespacedName → M Reconciled
unfolding ensure_finalizer reconcile_found
reconcile req = do
  got ← call (get Kind.snapshot req)
  check got
      (λ e.
        if is_not_found e
        then pure (no_requeue, none)
        else pure (
          no_requeue,
          some (wrapped e (concat ("error retrieving object from store: " ∷ e.message ∷ []))),
        ))
      λ s. do
        held ← has_finalizer snapshot_finalizer_name s.meta
        if held then reconcile_found req.namespace s s.status.conditions else ensure_finalizer s
