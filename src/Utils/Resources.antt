-- ===== src/Utils/Resources.antt =====
-- internal/controller/utils_resources.go, over any kind of object. A get fills the object that it is
-- given, so what is written after it is what was read.
use backup_restore_openstack.Prelude.{Option, none, some, concat, [], ◌∷◌, if◌then◌else◌}
use backup_restore_openstack.Types.Meta.{ObjectMeta, NamespacedName, Error, is_not_found, wrapped}
use backup_restore_openstack.Effects.{
  Kind, Object, get, create, update, delete, Answer, ok, err, M, pure, check, call, ◌>>=◌,
}

unfoldable pub object_meta_to_name : ObjectMeta → NamespacedName
object_meta_to_name m = record { namespace = m.namespace; name = m.name }

-- resource.GetName() and resource.GetNamespace()
abbrev pub meta_of : (k : Kind) → Object k → ObjectMeta
meta_of Kind.snapshot o = o.meta
meta_of Kind.create_kube_snapshot o = o.meta
meta_of Kind.restore_pvc o = o.meta
meta_of Kind.scheduler_snapshot o = o.meta
meta_of Kind.sync_snapshot o = o.meta
meta_of Kind.pvc o = o.meta
meta_of Kind.pv_snapshot o = o.meta
meta_of Kind.pod o = o.meta
meta_of Kind.secret o = o.meta
meta_of Kind.namespace o = o.meta

-- the error that a call returns, nil for none
abbrev pub failure : {A : Type 0} → Answer A → Option Error
failure (ok a) = none
failure (err e) = some e

unfoldable pub upsert_resource : (k : Kind) → Object k → M (Option Error)
unfolding object_meta_to_name
upsert_resource k resource = do
  got ← call (get k (object_meta_to_name (meta_of k resource)))
  check got
      (λ e.
        if is_not_found e
        then (do created ← call (create k resource); pure (failure created))
        else pure (some e))
      (λ stored. do updated ← call (update k stored); pure (failure updated))

unfoldable pub delete_resource : (k : Kind) → Object k → M (Option Error)
unfolding object_meta_to_name
delete_resource k resource = do
  let name = object_meta_to_name (meta_of k resource)
  got ← call (get k name)
  check got
      (λ e.
        if is_not_found e
        then pure none
        else pure (
            some (
              wrapped e (
                concat (
                  "error getting resource " ∷ name.namespace ∷ "/" ∷ name.name ∷ " for deletion: "
                  ∷ e.message ∷ [])))))
      (λ stored. do deleted ← call (delete k stored); pure (failure deleted))
