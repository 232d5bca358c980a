-- ===== src/Restores/Outcome.antt =====
-- restorepvc_controller.go: the status of a RestorePvc and its two handlers.
use backup_restore_openstack.Prelude.{
  String, ◌==◌, Bool, ◌&&◌, Option, none, some, List, [], ◌∷◌, concat, nat_eq, if◌then◌else◌,
}
use backup_restore_openstack.Prelude.Int.{pos}
use backup_restore_openstack.Types.Meta.{Error, plain, Condition, ConditionStatus}
use backup_restore_openstack.Types.Restore.{RestorePvc, RestorePvcStatus, empty_status}
use backup_restore_openstack.Effects.{
  Kind, M, pure, unless, save_status, set_condition, ◌>>=◌, Reconciled, no_requeue, after,
}
use backup_restore_openstack.Utils.Const.{requeue_time}

unfoldable pub status_equal : RestorePvcStatus → RestorePvcStatus → Bool
status_equal a b =
    a.creation_status == b.creation_status
    && a.restore_pvc_name == b.restore_pvc_name
    && a.resources == b.resources
    && a.source_snapshot_name == b.source_snapshot_name
    && a.source_namespace == b.source_namespace
    && nat_eq a.creation_time b.creation_time
    && a.des_namespace == b.des_namespace
    && a.volume_name == b.volume_name
    && a.storage_class_name == b.storage_class_name
    && a.volume_mode == b.volume_mode
    && a.status == b.status

unfoldable pub build_restore_pvc_status : RestorePvc → RestorePvcStatus → String → RestorePvcStatus
build_restore_pvc_status r returned creation_status = record empty_status {
  creation_status = creation_status;
  restore_pvc_name = returned.restore_pvc_name;
  resources = returned.resources;
  source_snapshot_name = returned.source_snapshot_name;
  source_namespace = r.spec.source_namespace;
  des_namespace = returned.des_namespace;
  volume_name = returned.volume_name;
  storage_class_name = returned.storage_class_name;
  access_mode = returned.access_mode;
  volume_mode = returned.volume_mode;
  status = returned.status;
  creation_time = returned.creation_time;
}

unfoldable pub update_restore_status : RestorePvc → RestorePvcStatus → M (RestorePvc × Option Error)
unfolding status_equal
update_restore_status r new = if status_equal r.status new then pure (r, none) else (do
  saved ← save_status Kind.restore_pvc (record r { status = new })
  unless saved.1
      (λ e. pure (
        saved.0,
        some (plain (concat ("failed to update snapshot CRD status: " ∷ e.message ∷ []))),
      ))
      (pure saved))

abbrev pub with_conditions : RestorePvc → List Condition → RestorePvc
with_conditions r cs = record r { status = record r.status { conditions = cs } }

-- a condition and its commit, with what is returned after it
unfoldable pub commit_condition : RestorePvc → Condition → Option Error → M Reconciled
commit_condition r c result = do
  conditions ← set_condition r.status.conditions c
  saved ← save_status Kind.restore_pvc (with_conditions r conditions)
  unless saved.1 (λ e. pure (no_requeue, some e)) (pure (no_requeue, result))

unfoldable pub handle_restore_pvc_error : RestorePvc → RestorePvcStatus → Error → M Reconciled
unfolding commit_condition
handle_restore_pvc_error r returned e = do
  saved ← update_restore_status r (build_restore_pvc_status r returned "Failed")
  unless saved.1 (λ failed. pure (after (pos requeue_time), some failed))
      (commit_condition saved.0
        (record {
          kind = "Available";
          status = ConditionStatus.condition_false;
          reason = "Reconciling";
          message =
              concat
                ("Failed to create restore (" ∷ saved.0.meta.name ∷ "): (" ∷ e.message ∷ ")" ∷ []);
        })
        (some e))

unfoldable pub handle_restore_pvc_success : RestorePvc → RestorePvcStatus → M Reconciled
unfolding commit_condition
handle_restore_pvc_success r returned = do
  saved ← update_restore_status r (build_restore_pvc_status r returned "Succeeded")
  unless saved.1 (λ failed. pure (no_requeue, some failed))
      (commit_condition saved.0
        (record {
          kind = "Available";
          status = ConditionStatus.condition_true;
          reason = "Reconciling";
          message = concat (
              "RestorePvc " ∷ saved.0.meta.name ∷ " in shoot " ∷ saved.0.meta.namespace
              ∷ " is updated" ∷ []);
        })
        none)
