-- ===== src/Listings/PvSnapshotList.antt =====
-- pvsnapshot_controller.go: ReconcilePvSnapshot and getPvSnapshotStatus.
use backup_restore_openstack.Prelude.{
  String, Option, none, some, List, [], ◌∷◌, ◌++◌, concat, if◌then◌else◌,
}
use backup_restore_openstack.Types.Meta.{Error, plain, is_set, delete}
use backup_restore_openstack.Types.Snapshot.{PvSnapshotItem}
use backup_restore_openstack.Types.Lists.{PvSnapshot}
use backup_restore_openstack.Effects.{
  Kind, connect, connect_dynamic, M, pure, check, unless, call, save, ◌>>=◌,
}
use backup_restore_openstack.Utils.Const.{pv_snapshot_reconcile_annotation}
use backup_restore_openstack.Utils.Strings.{slice_from}
use backup_restore_openstack.Utils.Kubeconfig.{get_secret_shoot_integrated_kubeconfig}
use backup_restore_openstack.Utils.Shoot.{deref, get_namespace}
use backup_restore_openstack.Utils.VolumeSnapshots.{get_volume_snapshot_in_shoot}

-- a namespace whose listing fails is left out
unfoldable pub get_items : List String → M (List PvSnapshotItem)
get_items [] = pure []
get_items (ns ∷ rest) = do
  listed ← get_volume_snapshot_in_shoot ns
  check listed (λ e. get_items rest) λ items. do more ← get_items rest; pure (items ++ more)

-- the object after the call, and the error
abbrev pub Listed : Type 0
Listed = PvSnapshot × Option Error

abbrev pub with_items : PvSnapshot → List PvSnapshotItem → PvSnapshot
with_items o items = record o { status = record { conditions = []; items = items } }

-- the status is set on the object only; an update for the annotation fills the object from the answer
unfoldable pub set_items : PvSnapshot → List PvSnapshotItem → M Listed
set_items o items =
    if is_set o.meta.annotations pv_snapshot_reconcile_annotation
    then (do
      saved ← save Kind.pv_snapshot (record (with_items o items) {
        meta = record o.meta {
          annotations = delete o.meta.annotations pv_snapshot_reconcile_annotation;
        };
      })
      unless saved.1
          (λ e. pure (
            saved.0,
            some (
                plain (
                  concat (
                    "error to delete annotation snapshotv1beta1.mfke.io/pvc-reconcile in pvSnapshot resource: ["
                    ∷ e.message ∷ "]" ∷ []))),
          ))
          (pure saved))
    else pure (with_items o items, none)

abbrev failed : PvSnapshot → List String → M Listed
failed o text = pure (o, some (plain (concat text)))

-- namespace[4:] panics on a shorter name
unfoldable pub reconcile_pv_snapshot : PvSnapshot → M Listed
unfolding get_items set_items
reconcile_pv_snapshot o = deref (slice_from o.meta.namespace 4) λ cluster_name. do
  kubeconfig ← get_secret_shoot_integrated_kubeconfig o.meta.namespace
  check kubeconfig
      (λ e. failed o (
        "unable to get shoot secret data kubeconfig in ns " ∷ cluster_name ∷ ": " ∷ e.message ∷ []))
      λ config. do
        connected ← call (connect config cluster_name)
        check connected
            (λ e.
              failed o
                ("unable to create shoot client set " ∷ cluster_name ∷ ": " ∷ e.message ∷ []))
            λ _. do
              dynamic ← call (connect_dynamic config cluster_name)
              check dynamic
                  (λ e. failed o (
                    "unable to create dynamic shoot client set " ∷ cluster_name ∷ ": " ∷ e.message
                    ∷ []))
                  λ _. do
                    namespaces ← get_namespace
                    items ← get_items namespaces
                    set_items o items
