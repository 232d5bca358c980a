-- ===== src/Restores/Reconcile.antt =====
-- restorepvc_controller.go, Reconcile.
use backup_restore_openstack.Prelude.{
  String, ℕ, Option, none, some, List, [], ◌∷◌, concat, if◌then◌else◌,
}
use backup_restore_openstack.Types.Meta.{
  Error, NamespacedName, is_not_found, is_zero, wrapped, ConditionStatus, Condition,
}
use backup_restore_openstack.Types.Restore.{RestorePvc}
use backup_restore_openstack.Effects.{
  Kind, get, M, pure, check, unless, call, save, save_status, has_finalizer, add_finalizer,
  drop_finalizer, set_condition, ◌>>=◌, Reconciled, no_requeue, requeue_now,
}
use backup_restore_openstack.Utils.Const.{restore_pvc_finalizer_name}
use backup_restore_openstack.Restores.InUse.{update_decrease_in_use_snapshot}
use backup_restore_openstack.Restores.Restore.{reconcile_restore_pvc, remove_restore_annotation}
use backup_restore_openstack.Restores.Outcome.{
  with_conditions, handle_restore_pvc_error, handle_restore_pvc_success,
}

unfoldable pub reconcile_live : RestorePvc → M Reconciled
reconcile_live object = do
  result ← reconcile_restore_pvc object
  current ← remove_restore_annotation result.object
  unless result.error (handle_restore_pvc_error current result.status)
      (handle_restore_pvc_success current result.status)

abbrev stopped : Error → M Reconciled
stopped e = pure (no_requeue, some e)

-- `if !ns.DeletionTimestamp.IsZero() { … }`: the object, and the error of its update
unfoldable pub release_with_namespace : Option ℕ → RestorePvc → M (RestorePvc × Option Error)
release_with_namespace ns_deleted r = if is_zero ns_deleted then pure (r, none) else (do
  dropped ← drop_finalizer restore_pvc_finalizer_name r.meta
  save Kind.restore_pvc (record r { meta = dropped.0 }))

-- the finalizer is taken off locally, the use is counted down, and then the object is written
unfoldable pub release_use : RestorePvc → M Reconciled
release_use r = do
  dropped ← drop_finalizer restore_pvc_finalizer_name r.meta
  if dropped.1
      then (do
        failed ← update_decrease_in_use_snapshot r
        unless failed (λ e. pure (requeue_now, some e))
            (do
              saved ← save Kind.restore_pvc (record r { meta = dropped.0 })
              unless saved.1 stopped (pure (no_requeue, none))))
      else pure (requeue_now, none)

unfoldable pub finalize : RestorePvc → M Reconciled
unfolding release_use
finalize r = do
  held ← has_finalizer restore_pvc_finalizer_name r.meta
  if held then release_use r else pure (no_requeue, none)

unfoldable pub reconcile_deleted : String → RestorePvc → M Reconciled
unfolding release_with_namespace finalize
reconcile_deleted ns r = do
  conditions ← set_condition r.status.conditions (record {
    kind = "Degraded";
    status = ConditionStatus.condition_unknown;
    reason = "Finalizing";
    message =
        concat
          ("Performing finalizer operations for the custom resource: " ∷ r.meta.name ∷ " " ∷ []);
  })
  saved ← save_status Kind.restore_pvc (with_conditions r conditions)
  unless saved.1 stopped (do
    got ← call (get Kind.namespace (record { namespace = ns; name = ns }))
    check got stopped λ found. do
      released ← release_with_namespace found.meta.deletion_timestamp saved.0
      unless released.1 stopped (finalize released.0))

unfoldable pub reconcile_ready : String → RestorePvc → M Reconciled
unfolding reconcile_live reconcile_deleted
reconcile_ready ns r =
    if is_zero r.meta.deletion_timestamp then reconcile_live r else reconcile_deleted ns r

-- the first conditions, and the object fetched again
unfoldable pub initialize : NamespacedName → RestorePvc → M Reconciled
unfolding reconcile_ready
initialize req r = do
  conditions ← set_condition r.status.conditions (record {
    kind = "Available";
    status = ConditionStatus.condition_unknown;
    reason = "Reconciling";
    message = "Starting reconciliation";
  })
  saved ← save_status Kind.restore_pvc (with_conditions r conditions)
  unless saved.1 stopped
      (do got ← call (get Kind.restore_pvc req); check got stopped (reconcile_ready req.namespace))

unfoldable pub reconcile_with : NamespacedName → RestorePvc → List Condition → M Reconciled
unfolding initialize
reconcile_with req r [] = initialize req r
reconcile_with req r (c ∷ cs) = reconcile_ready req.namespace r

unfoldable pub ensure_finalizer : NamespacedName → RestorePvc → M Reconciled
ensure_finalizer req r = do
  m ← add_finalizer restore_pvc_finalizer_name r.meta
  saved ← save Kind.restore_pvc (record r { meta = m })
  unless saved.1 stopped
      (do got ← call (get Kind.restore_pvc req); check got stopped (λ _. pure (no_requeue, none)))

unfoldable pub reconcile : NamespacedName → M Reconciled
unfolding ensure_finalizer reconcile_with
reconcile req = do
  got ← call (get Kind.restore_pvc req)
  check got
      (λ e.
        if is_not_found e
        then pure (no_requeue, none)
        else stopped (wrapped e (concat ("error retrieving object from store: " ∷ e.message ∷ []))))
      λ r. do
        held ← has_finalizer restore_pvc_finalizer_name r.meta
        if held then reconcile_with req r r.status.conditions else ensure_finalizer req r
