-- ===== src/Syncs/Objects.antt =====
-- syncsnapshot_controller.go: the handlers of one object, and the lists of the seed in utils.go.
use backup_restore_openstack.Prelude.{
  String, Bool, true, false, Option, none, some, List, [], if◌then◌else◌,
}
use backup_restore_openstack.Types.Meta.{Error, is_not_found, ObjectMeta, put}
use backup_restore_openstack.Types.Restore.{RestorePvc}
use backup_restore_openstack.Types.Lists.{Pvc}
use backup_restore_openstack.Effects.{
  Kind, get, list, patch, delete, get_pvc, Answer, ok, err, M, pure, check, call, ◌>>=◌,
}
use backup_restore_openstack.Utils.Resources.{object_meta_to_name}

-- checkRestorePvcInShoot
unfoldable pub check_restore_pvc_in_shoot : RestorePvc → M (Answer Bool)
check_restore_pvc_in_shoot r = do
  got ← call (get_pvc r.spec.des_namespace r.meta.name)
  check got (λ e. if is_not_found e then pure (ok false) else pure (err e)) (λ _. pure (ok true))

-- getSeedRestoredPvcList; an error is only logged, and the list is empty
unfoldable pub get_seed_restored_pvc_list : String → M (List RestorePvc)
get_seed_restored_pvc_list ns = do
  listed ← call (list Kind.restore_pvc ns [])
  check listed (λ e. pure []) (λ items. pure items)

-- getPvcList; an error is only logged, and the list is empty
unfoldable pub get_pvc_list : String → M (List Pvc)
get_pvc_list ns = do
  listed ← call (list Kind.pvc ns [])
  check listed (λ e. pure []) (λ items. pure items)

-- an object that is gone counts as handled
abbrev pub unless_gone : Error → M (Option Error)
unless_gone e = if is_not_found e then pure none else pure (some e)

-- the metadata with an annotation set
abbrev pub annotated : ObjectMeta → String → String → ObjectMeta
annotated m k v = record m { annotations = put m.annotations k v }

unfoldable pub reconcile_pvc_list : Pvc → String → String → M (Option Error)
reconcile_pvc_list p k v = do
  got ← call (get Kind.pvc (object_meta_to_name p.meta))
  check got unless_gone λ found. do
    patched ← call (patch Kind.pvc (record found { meta = annotated found.meta k v }))
    check patched (λ e. pure (some e)) (λ _. pure none)

unfoldable pub reconcile_restored_pvc : RestorePvc → String → String → M (Option Error)
reconcile_restored_pvc r k v = do
  got ← call (get Kind.restore_pvc (object_meta_to_name r.meta))
  check got unless_gone λ found. do
    patched ← call (patch Kind.restore_pvc (record found { meta = annotated found.meta k v }))
    check patched (λ e. pure (some e)) (λ _. pure none)

unfoldable pub delete_restored_pvc : RestorePvc → M (Option Error)
delete_restored_pvc r = do
  got ← call (get Kind.restore_pvc (object_meta_to_name r.meta))
  check got unless_gone λ found. do
    deleted ← call (delete Kind.restore_pvc found)
    check deleted (λ e. pure (some e)) (λ _. pure none)
