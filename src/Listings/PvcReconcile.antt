-- ===== src/Listings/PvcReconcile.antt =====
-- pvc_controller.go, Reconcile.
use backup_restore_openstack.Prelude.{
  ℕ, ◌*◌, String, ◌==◌, Bool, ◌&&◌, Option, none, some, List, [], ◌∷◌, concat, if◌then◌else◌, false,
}
use backup_restore_openstack.Prelude.Int.{pos}
use backup_restore_openstack.Types.Meta.{
  Error, wrapped, NamespacedName, is_not_found, is_zero, ConditionStatus, Condition,
  is_condition_true,
}
use backup_restore_openstack.Types.Lists.{Pvc}
use backup_restore_openstack.Effects.{
  Kind, get, M, pure, asks, check, unless, call, save, save_status, has_finalizer, add_finalizer,
  drop_finalizer, set_condition, ◌>>=◌, Reconciled, no_requeue, requeue_now, after,
}
use backup_restore_openstack.Utils.Const.{minute, pvc_finalizer_name}
use backup_restore_openstack.Listings.PvcList.{reconcile_pvc}

abbrev stopped : Error → M Reconciled
stopped e = pure (no_requeue, some e)

abbrev pub with_conditions : Pvc → List Condition → Pvc
with_conditions o cs = record o { status = record o.status { conditions = cs } }

-- the condition is set and the status written; then `result` is returned
unfoldable pub commit : Pvc → Condition → Reconciled → M Reconciled
commit o c result = do
  conditions ← set_condition o.status.conditions c
  saved ← save_status Kind.pvc (with_conditions o conditions)
  unless saved.1 stopped (pure result)

abbrev pub available : ConditionStatus → String → Condition
available status message = record {
  kind = "Available";
  status = status;
  reason = "Reconciling";
  message = message;
}

unfoldable pub report_failure : Pvc → Error → M Reconciled
unfolding commit
report_failure o e =
    commit o
      (available ConditionStatus.condition_false (
        concat (
          "Failed to reconcile for the custom resource (" ∷ o.meta.name ∷ "): (" ∷ e.message ∷ ")"
          ∷ [])))
      (no_requeue, some e)

abbrev pub list_message : Pvc → String
list_message o =
    concat ("PVC List " ∷ o.meta.name ∷ " in shoot " ∷ o.meta.namespace ∷ " is updated" ∷ [])

-- the Available condition says already what it should
unfoldable pub says_updated : Option Condition → String → Bool
says_updated none message = false
says_updated (some c) message =
    is_condition_true c.status && c.reason == "Reconciling" && c.message == message

unfoldable pub report_success : Pvc → M Reconciled
unfolding says_updated commit
report_success o = do
  known ← asks (λ env. env.find_status_condition o.status.conditions "Available")
  if says_updated known (list_message o)
      then pure (after (pos (20 * minute)), none)
      else commit o (available ConditionStatus.condition_true (list_message o))
          (after (pos (20 * minute)), none)

unfoldable pub reconcile_live : Pvc → M Reconciled
unfolding report_failure report_success
reconcile_live o = do
  listed ← reconcile_pvc o
  unless listed.1 (report_failure listed.0) (report_success listed.0)

unfoldable pub write_released : Pvc → M Reconciled
write_released o = do
  dropped ← drop_finalizer pvc_finalizer_name o.meta
  if dropped.1
      then (do
        saved ← save Kind.pvc (record o { meta = dropped.0 })
        unless saved.1 stopped (pure (no_requeue, none)))
      else pure (requeue_now, none)

unfoldable pub finalize : Pvc → M Reconciled
unfolding write_released
finalize o = do
  held ← has_finalizer pvc_finalizer_name o.meta
  if held then write_released o else pure (no_requeue, none)

unfoldable pub release_with_namespace : Option ℕ → Pvc → M (Pvc × Option Error)
release_with_namespace ns_deleted o = if is_zero ns_deleted then pure (o, none) else (do
  dropped ← drop_finalizer pvc_finalizer_name o.meta
  save Kind.pvc (record o { meta = dropped.0 }))

unfoldable pub reconcile_deleted : String → Pvc → M Reconciled
unfolding release_with_namespace finalize
reconcile_deleted ns o = do
  conditions ← set_condition o.status.conditions (record {
    kind = "Degraded";
    status = ConditionStatus.condition_unknown;
    reason = "Finalizing";
    message =
        concat
          ("Performing finalizer operations for the custom resource: " ∷ o.meta.name ∷ " " ∷ []);
  })
  saved ← save_status Kind.pvc (with_conditions o conditions)
  unless saved.1 stopped (do
    got ← call (get Kind.namespace (record { namespace = ns; name = ns }))
    check got stopped λ found. do
      released ← release_with_namespace found.meta.deletion_timestamp saved.0
      unless released.1 stopped (finalize released.0))

unfoldable pub reconcile_ready : String → Pvc → M Reconciled
unfolding reconcile_live reconcile_deleted
reconcile_ready ns o =
    if is_zero o.meta.deletion_timestamp then reconcile_live o else reconcile_deleted ns o

-- the first conditions, and the object fetched again
unfoldable pub initialize : NamespacedName → Pvc → List Condition → M Reconciled
unfolding reconcile_ready
initialize req o (c ∷ cs) = reconcile_ready req.namespace o
initialize req o [] = do
  conditions ← set_condition o.status.conditions (record {
    kind = "Available";
    status = ConditionStatus.condition_unknown;
    reason = "Reconciling";
    message = "Starting reconciliation";
  })
  saved ← save_status Kind.pvc (with_conditions o conditions)
  unless saved.1 stopped
      (do got ← call (get Kind.pvc req); check got stopped (reconcile_ready req.namespace))

unfoldable pub ensure_finalizer : NamespacedName → Pvc → M Reconciled
ensure_finalizer req o = do
  m ← add_finalizer pvc_finalizer_name o.meta
  saved ← save Kind.pvc (record o { meta = m })
  unless saved.1 stopped
      (do got ← call (get Kind.pvc req); check got stopped (λ _. pure (no_requeue, none)))

unfoldable pub reconcile : NamespacedName → M Reconciled
unfolding initialize ensure_finalizer
reconcile req = do
  got ← call (get Kind.pvc req)
  check got
      (λ e.
        if is_not_found e
        then pure (no_requeue, none)
        else stopped (wrapped e (concat ("error retrieving object from store: " ∷ e.message ∷ []))))
      λ o. do
        held ← has_finalizer pvc_finalizer_name o.meta
        if held then initialize req o o.status.conditions else ensure_finalizer req o
