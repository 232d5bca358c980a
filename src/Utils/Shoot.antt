-- ===== src/Utils/Shoot.antt =====
-- utils.go, GetNamespace, and pvc_controller.go, getPVC: what the shoot's typed client lists.
use backup_restore_openstack.Prelude.{String, Option, none, some, List, [], ◌∷◌, ◌++◌}
use backup_restore_openstack.Types.Restore.{PersistentVolumeClaim}
use backup_restore_openstack.Types.Lists.{PvcDetail}
use backup_restore_openstack.Effects.{
  list_namespaces, list_pvcs, M, pure, panic, check, call, ◌>>=◌,
}

-- a pointer that is followed, and a slice of a text that may be too short
abbrev pub deref : {A : Type 0} → Option String → (String → M A) → M A
deref none go = panic
deref (some s) go = go s

-- a listing that fails is a panic, though the function returns an error
unfoldable pub get_namespace : M (List String)
get_namespace = do listed ← call list_namespaces; check listed (λ e. panic) (λ names. pure names)

unfoldable pub detail_of : PersistentVolumeClaim → String → PvcDetail
detail_of item class = record {
  pvc_name = item.meta.name;
  resources = item.requests_storage;
  source_snapshot_name = "";
  namespace = item.meta.namespace;
  volume_name = item.volume_name;
  storage_class_name = class;
  access_mode = item.access_modes;
  volume_mode = "";
  status = "";
  creation_time = "";
}

-- a claim without a storage class is a panic
unfoldable pub details : List PersistentVolumeClaim → M (List PvcDetail)
unfolding detail_of
details [] = pure []
details (item ∷ items) =
    deref item.storage_class_name
      λ class. do more ← details items; pure (detail_of item class ∷ more)

-- a namespace whose listing fails is left out
unfoldable pub get_pvc : List String → M (List PvcDetail)
unfolding details
get_pvc [] = pure []
get_pvc (ns ∷ rest) = do
  listed ← call (list_pvcs ns)
  check listed (λ e. get_pvc rest)
      λ items. do here ← details items; more ← get_pvc rest; pure (here ++ more)
