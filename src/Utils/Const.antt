-- ===== src/Utils/Const.antt =====
-- internal/controller/const.go, and the durations of package time, in nanoseconds.
use backup_restore_openstack.Prelude.{ℕ, String, ◌*◌}

abbrev pub pvc_finalizer_name : String
pvc_finalizer_name = "snapshotv1beta1.mfke.io/pvc"

abbrev pub pv_snapshot_finalizer_name : String
pv_snapshot_finalizer_name = "snapshotv1beta1.mfke.io/pvsnapshot"

abbrev pub restore_pvc_finalizer_name : String
restore_pvc_finalizer_name = "snapshotv1beta1.mfke.io/restorePvc"

abbrev pub snapshot_finalizer_name : String
snapshot_finalizer_name = "snapshotv1beta1.mfke.io/snapshot"

abbrev pub sync_snapshot_finalizer_name : String
sync_snapshot_finalizer_name = "snapshotv1beta1.mfke.io/sync"

abbrev pub pvc_reconcile_annotation : String
pvc_reconcile_annotation = "snapshotv1beta1.mfke.io/pvc-reconcile"

abbrev pub pv_snapshot_reconcile_annotation : String
pv_snapshot_reconcile_annotation = "snapshotv1beta1.mfke.io/pvsnapshot-reconcile"

abbrev pub snapshot_reconcile_annotation : String
snapshot_reconcile_annotation = "snapshotv1beta1.mfke.io/snapshot-reconcile"

abbrev pub sync_snapshot_reconciler_annotation : String
sync_snapshot_reconciler_annotation = "snapshotv1beta1.mfke.io/syncsnapshot-reconcile"

abbrev pub create_snapshot_enabled_annotation : String
create_snapshot_enabled_annotation = "snapshotv1beta1.mfke.io/createSnapshot-enabled"

abbrev pub restore_pvc_enabled_annotation : String
restore_pvc_enabled_annotation = "snapshotv1beta1.mfke.io/restorePvc-enabled"

abbrev pub create_kube_snapshot_run_counter_annotation : String
create_kube_snapshot_run_counter_annotation =
    "snapshotv1beta1.mfke.io/createKubeSnapshot-runCounter"

abbrev pub volume_snapshot : String
volume_snapshot = "volumesnapshots"

abbrev pub volume_snapshot_class_name : String
volume_snapshot_class_name = "csi-cinder-snapclass"

abbrev pub unknown : String
unknown = "N/A"

abbrev pub label_role : String
label_role = "snapshotv1beta1.mfke.io/role"

abbrev pub second : ℕ
second = 1000000000

abbrev pub minute : ℕ
minute = 60 * second

abbrev pub hour : ℕ
hour = 60 * minute

abbrev pub requeue_time : ℕ
requeue_time = 5 * minute
