-- ===== src/Utils/Validation.antt =====
-- utils.go: ValidateSchedulerCronSpec, formatResourceList and convertAccessModes, which no caller uses.
-- The cron library's parser is the argument `parse`; the set of seen specs is a list.
pub mod Laws
use backup_restore_openstack.Prelude.{
  String, ◌==◌, Bool, true, false, ◌||◌, List, [], ◌∷◌, concat, join, if◌then◌else◌,
}
use backup_restore_openstack.Types.Meta.{Error}
use backup_restore_openstack.Effects.{Answer, ok, err, Schedule, check}

-- field.Error: the path, the value, and for an invalid value the text
pub data FieldError : Type 0 where
  invalid : String → String → String → FieldError
  duplicate : String → String → FieldError

unfoldable pub has : List String → String → Bool
has [] s = false
has (t ∷ ts) s = t == s || has ts s

-- the errors, and the set after the call
unfoldable pub validate_scheduler_cron_spec :
    (String → Answer Schedule) → List String → String → String → List FieldError × List String
unfolding check
validate_scheduler_cron_spec parse seen spec path =
    check (parse spec)
      (λ e. (invalid path spec (concat ("not a valid cron spec: " ∷ e.message ∷ [])) ∷ [], seen))
      (λ _. if has seen spec then (duplicate path spec ∷ [], seen) else ([], spec ∷ seen))

-- the map of resources, as the pairs that its loop gives in some order
unfoldable pub format_resources : List (String × String) → List String
format_resources [] = []
format_resources ((name, quantity) ∷ rest) =
    concat (name ∷ ": " ∷ quantity ∷ []) ∷ format_resources rest

unfoldable pub format_resource_list : List (String × String) → String
unfolding format_resources
format_resource_list resources = join ", " (format_resources resources)

-- an access mode is a text already
unfoldable pub convert_access_modes : List String → List String
convert_access_modes [] = []
convert_access_modes (mode ∷ modes) = mode ∷ convert_access_modes modes
