-- ===== src/Syncs/Snapshots.antt =====
-- syncsnapshot_controller.go, ReconcileSyncSnapshot, which no caller uses: the snapshots that only the
-- shoot or only the seed has. The maps are walked in the order of their keys here; Go leaves it open.
use backup_restore_openstack.Prelude.{
  String, ◌==◌, not, ◌&&◌, Option, none, some, List, [], ◌∷◌, concat, is_some, if◌then◌else◌,
}
use backup_restore_openstack.Prelude.Int.{pos}
use backup_restore_openstack.Prelude.Dict.{lookup, insert}
use backup_restore_openstack.Types.Meta.{Error, plain, new_meta}
use backup_restore_openstack.Types.Snapshot.{Snapshot, SnapshotStatus, empty_status}
use backup_restore_openstack.Types.Lists.{SyncSnapshot}
use backup_restore_openstack.Effects.{
  Kind, list, create, connect, connect_dynamic, M, pure, check, call, ◌>>=◌,
}
use backup_restore_openstack.Utils.Strings.{trim_prefix}
use backup_restore_openstack.Utils.Kubeconfig.{get_secret_shoot_integrated_kubeconfig}
use backup_restore_openstack.Utils.Shoot.{get_namespace}
use backup_restore_openstack.Utils.VolumeSnapshots.{get_pv_snapshot_status}
use backup_restore_openstack.Schedulers.Objects.{new_delete_snapshot}

abbrev pub SnapshotMap : Type 0
SnapshotMap = List (String × SnapshotStatus)

abbrev pub key_of_status : SnapshotStatus → String
key_of_status s = concat (s.namespace ∷ "/" ∷ s.snapshot_name ∷ [])

-- the later of two snapshots with one key stays
unfoldable pub map_of : SnapshotMap → List SnapshotStatus → SnapshotMap
map_of m [] = m
map_of m (s ∷ ss) = map_of (insert (key_of_status s) s m) ss

abbrev pub statuses_of : List Snapshot → List SnapshotStatus
statuses_of [] = []
statuses_of (s ∷ ss) = s.status ∷ statuses_of ss

-- in the shoot, of the class, and not in the seed
unfoldable pub missing_in : SnapshotMap → SnapshotMap → List SnapshotStatus
missing_in seed [] = []
missing_in seed ((k, s) ∷ m) =
    let rest = missing_in seed m in
    if not (is_some (lookup k seed)) && s.volume_snapshot_class_name == "csi-cinder-snapclass"
    then s ∷ rest
    else rest

-- in the seed, and not in the shoot
unfoldable pub extra_in : SnapshotMap → SnapshotMap → List SnapshotStatus
extra_in shoot [] = []
extra_in shoot ((k, s) ∷ m) =
    let rest = extra_in shoot m in if is_some (lookup k shoot) then rest else s ∷ rest

unfoldable pub synced_snapshot : String → SnapshotStatus → Snapshot
synced_snapshot seed_namespace s = record {
  meta = new_meta s.snapshot_name seed_namespace;
  spec = record {
    pvc_name = s.source_pvc_name;
    snapshot_name = "";
    namespace = s.namespace;
    snapshot_type = "Manually";
    num_in_use = pos 0;
  };
  status = empty_status;
}

-- the errors are only logged
unfoldable pub create_missing : String → List SnapshotStatus → M (Unit {0})
unfolding synced_snapshot
create_missing ns [] = pure tt
create_missing ns (s ∷ ss) = do
  created ← call (create Kind.snapshot (synced_snapshot ns s))
  create_missing ns ss

unfoldable pub delete_extra : String → List SnapshotStatus → M (Unit {0})
delete_extra ns [] = pure tt
delete_extra ns (s ∷ ss) = do
  failed ← new_delete_snapshot s.snapshot_name ns s.source_pvc_name s.namespace
  delete_extra ns ss

-- the two lists, and the error
abbrev pub Synced : Type 0
Synced = (List SnapshotStatus × List SnapshotStatus) × Option Error

abbrev stopped : List String → M Synced
stopped text = pure (([], []), some (plain (concat text)))

unfoldable pub sync_lists : String → List Snapshot → List SnapshotStatus → M Synced
unfolding map_of missing_in extra_in create_missing delete_extra
sync_lists ns seed shoot = do
  let seed_map = map_of [] (statuses_of seed)
  let shoot_map = map_of [] shoot
  created ← create_missing ns (missing_in seed_map shoot_map)
  deleted ← delete_extra ns (extra_in shoot_map seed_map)
  pure ((missing_in seed_map shoot_map, extra_in shoot_map seed_map), none)

unfoldable pub reconcile_sync_snapshot : SyncSnapshot → M Synced
unfolding sync_lists
reconcile_sync_snapshot o = do
  let ns = o.meta.namespace
  let cluster_name = trim_prefix ns "fke-"
  kubeconfig ← get_secret_shoot_integrated_kubeconfig ns
  check kubeconfig
      (λ e. stopped (
        "unable to get shoot secret data kubeconfig in ns " ∷ cluster_name ∷ ": " ∷ e.message ∷ []))
      λ config. do
        connected ← call (connect config cluster_name)
        check connected
            (λ e.
              stopped ("unable to create shoot client set " ∷ cluster_name ∷ ": " ∷ e.message ∷ []))
            λ _. do
              dynamic ← call (connect_dynamic config cluster_name)
              check dynamic
                  (λ e. stopped (
                    "unable to create dynamic shoot client set " ∷ cluster_name ∷ ": " ∷ e.message
                    ∷ []))
                  λ _. do
                    namespaces ← get_namespace
                    seed ← call (list Kind.snapshot ns [])
                    check seed
                        (λ e. stopped (
                          "unable to get pvc list in seed " ∷ cluster_name ∷ ": " ∷ e.message ∷ []))
                        λ snapshots. do
                          shoot ← get_pv_snapshot_status namespaces
                          sync_lists ns snapshots shoot
