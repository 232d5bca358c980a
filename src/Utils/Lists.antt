-- ===== src/Utils/Lists.antt =====
-- Lists measured by the native numbers, under the library's names.
use backup_restore_openstack.Prelude.{ℕ, suc, List, [], ◌∷◌}

module _ {ℓ} {A : Type ℓ} where
  abbrev pub length : List A → ℕ
  length [] = 0
  length (x ∷ xs) = suc (length xs)
