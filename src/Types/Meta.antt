-- ===== src/Types/Meta.antt =====
-- Object metadata, conditions and errors, as the code uses them. Times are nanoseconds since Go's
-- zero time, so that `IsZero` is the test for 0. An error is its reason, which the code asks for by
-- apierrors.IsNotFound, IsConflict and IsAlreadyExists, and its text.
use backup_restore_openstack.Prelude.{
  ℕ, String, Bool, true, false, Option, none, some, List, ◌==◌, nat_eq,
}
use backup_restore_openstack.Prelude.Dict.{lookup, insert, erase}

pub data Reason : Type 0 where
  not_found conflict already_exists other : Reason

pub record Error : Type 0 where
  pub reason : Reason
  pub message : String

abbrev pub is_not_found : Error → Bool
is_not_found e = elim e.reason [ Reason.not_found ↦ true | _ ↦ false ]

abbrev pub is_conflict : Error → Bool
is_conflict e = elim e.reason [ Reason.conflict ↦ true | _ ↦ false ]

abbrev pub is_already_exists : Error → Bool
is_already_exists e = elim e.reason [ Reason.already_exists ↦ true | _ ↦ false ]

-- fmt.Errorf("...: %w", err) keeps the reason of what it wraps; %v and a plain text lose it.
abbrev pub wrapped : Error → String → Error
wrapped e text = record e { message = text }

abbrev pub plain : String → Error
plain text = record { reason = Reason.other; message = text }

pub record NamespacedName : Type 0 where
  pub namespace : String
  pub name : String

abbrev pub Annotations : Type 0
Annotations = Option (List (String × String))

pub record ObjectMeta : Type 0 where
  pub name : String
  pub namespace : String
  pub labels : List (String × String)
  pub annotations : Annotations
  pub finalizers : List String
  pub creation_timestamp : ℕ
  pub deletion_timestamp : Option ℕ

-- The metadata of an object that the code builds: what it leaves out is empty.
abbrev pub new_meta : String → String → ObjectMeta
new_meta name namespace = record {
  name = name;
  namespace = namespace;
  labels = List.[];
  annotations = none;
  finalizers = List.[];
  creation_timestamp = 0;
  deletion_timestamp = none;
}

-- DeletionTimestamp.IsZero()
abbrev pub is_zero : Option ℕ → Bool
is_zero none = true
is_zero (some t) = nat_eq t 0

-- m[k], which for a missing key and for a nil map is the empty text
abbrev pub value_of : Option String → String
value_of none = ""
value_of (some v) = v

abbrev pub annotation : Annotations → String → Option String
annotation none k = none
annotation (some m) k = lookup k m

-- m[k] == "true"
abbrev pub is_set : Annotations → String → Bool
is_set m k = value_of (annotation m k) == "true"

-- delete(m, k)
abbrev pub delete : Annotations → String → Annotations
delete none k = none
delete (some m) k = some (erase k m)

-- `if m == nil { m = make(…) }; m[k] = v`
abbrev pub put : Annotations → String → String → Annotations
put none k v = some (insert k v List.[])
put (some m) k v = some (insert k v m)

pub data ConditionStatus : Type 0 where
  condition_true condition_false condition_unknown : ConditionStatus

abbrev pub is_condition_true : ConditionStatus → Bool
is_condition_true ConditionStatus.condition_true = true
is_condition_true _ = false

abbrev pub is_condition_false : ConditionStatus → Bool
is_condition_false ConditionStatus.condition_false = true
is_condition_false _ = false

-- metav1.Condition; the library sets the transition time
pub record Condition : Type 0 where
  pub kind : String
  pub status : ConditionStatus
  pub reason : String
  pub message : String
