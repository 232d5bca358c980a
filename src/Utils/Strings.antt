-- ===== src/Utils/Strings.antt =====
-- The functions of Go's package strings that the controllers call, on ASCII texts.
use Prim.Native.String.{len, slice}
use text.Mathlib.Text.{starts_with, find?, get?}
use backup_restore_openstack.Prelude.{ℕ, String, Bool, Option, is_some, if◌then◌else◌}

-- strings.Contains
unfoldable pub contains : String → String → Bool
contains s t = is_some (find? s t)

-- strings.TrimPrefix
unfoldable pub trim_prefix : String → String → String
trim_prefix s p = if starts_with s p then slice s (len p) (len s) else s

-- s[k:], which panics past the end
unfoldable pub slice_from : String → ℕ → Option String
slice_from s k = get? s k (len s)
