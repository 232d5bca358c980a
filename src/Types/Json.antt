-- ===== src/Types/Json.antt =====
-- The content of an unstructured object, map[string]interface{}, and what its accessors give: the
-- value, no value, or an error for a value of another type.
use backup_restore_openstack.Prelude.{String, Bool}
use backup_restore_openstack.Prelude.Int.{ℤ}

mutual
  pub data Json : Type 0 where
    null : Json
    bool : Bool → Json
    num : ℤ → Json
    str : String → Json
    arr : Items → Json
    obj : Fields → Json

  pub data Items : Type 0 where
    nil : Items
    cons : Json → Items → Items

  pub data Fields : Type 0 where
    end : Fields
    field : String → Json → Fields → Fields

pub data Found (A : Type 0) : Type 0 where
  found : A → Found A
  missing : Found A
  mistyped : Found A
