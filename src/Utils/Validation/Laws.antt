-- ===== src/Utils/Validation/Laws.antt =====
-- What a list of cron specs must be to pass the validation.
use backup_restore_openstack.Prelude.{String, ◌≡◌, ◌↔◌, refl, false, List, [], ◌∷◌, ◌++◌, arith}
use backup_restore_openstack.Effects.{Answer, Schedule}
use backup_restore_openstack.Snapshots.DeleteLaws.{IsOk}
use backup_restore_openstack.Effects.Trace.{All}
use backup_restore_openstack.Utils.Validation.{FieldError, has, validate_scheduler_cron_spec}

module _ (parse : String → Answer Schedule) where
  -- the errors of a list of specs under one path, each validated with the set that the one before left
  abbrev pub validate_all : List String → String → List String → List FieldError
  validate_all seen path [] = []
  validate_all seen path (s ∷ ss) =
      let (errors, after) = validate_scheduler_cron_spec parse seen s path in
      errors ++ validate_all after path ss

  -- different from each other, and from those of `seen`
  abbrev pub AreNew : List String → List String → Type 0
  AreNew seen [] = Unit
  AreNew seen (s ∷ ss) = (has seen s ≡ false) × AreNew (s ∷ seen) ss

  -- The validation finds no error exactly in a list of specs that the cron library parses, each of which
  -- is different from those before it and from those that were seen.
  pub validate_all-IsNew :
      (seen : List String) (path : String) (specs : List String)
      → (validate_all seen path specs ≡ []) ↔ (All (λ s. IsOk (parse s)) specs × AreNew seen specs)
  unfolding validate_scheduler_cron_spec
  validate_all-IsNew seen path [] = (λ h. (tt, tt), λ h. refl)
  validate_all-IsNew seen path (s ∷ ss) =
      ground (arith, validate_all-IsNew seen path ss, validate_all-IsNew (s ∷ seen) path ss)
