-- ===== src/Syncs/LostLaws.antt =====
-- Which RestorePvcs the SyncSnapshot controller deletes.
use backup_restore_openstack.Prelude.{String, ◌≡◌, Bool, true, false, List, [], ◌∷◌}
use backup_restore_openstack.Types.Meta.{is_not_found}
use backup_restore_openstack.Types.Restore.{RestorePvc}
use backup_restore_openstack.Effects.{Kind, Request, get, delete, get_pvc, Answer, ok, err, Env}
use backup_restore_openstack.Effects.Triple.{Triple}

-- The PVC was looked for and is not there.
abbrev pub IsNotFound : {A : Type 0} → Answer A → Type 0
IsNotFound (ok a) = ⊥
IsNotFound (err e) = is_not_found e ≡ true

module _ (env : Env) where
  -- The last PVC that was looked for has this name, and was not found.
  abbrev pub IsLost : String → List Request → Type 0
  IsLost name [] = ⊥
  IsLost name (get_pvc ns p ∷ t) = (p ≡ name) × IsNotFound (env.answer t (get_pvc ns p))
  IsLost name (_ ∷ t) = IsLost name t

  -- The last request read this RestorePvc by a name whose PVC was not found before.
  abbrev pub IsRead : RestorePvc → List Request → Type 0
  IsRead o (get Kind.restore_pvc k ∷ t) =
      (env.answer t (get Kind.restore_pvc k) ≡ ok o) × IsLost k.name t
  IsRead o _ = ⊥

  -- Each deletion of a RestorePvc comes right after such a read.
  abbrev pub DeletesLost : List Request → Type 0
  DeletesLost [] = Unit
  DeletesLost (delete Kind.restore_pvc o ∷ t) = IsRead o t × DeletesLost t
  DeletesLost (_ ∷ t) = DeletesLost t

  abbrev Checked : RestorePvc → Answer Bool → List Request → Type 0
  Checked r (ok false) t = IsLost r.meta.name t × DeletesLost t
  Checked r (ok true) t = DeletesLost t
  Checked r (err e) t = DeletesLost t

  -- after the read: what was answered, if it was an object
  abbrev Read : Answer RestorePvc → List Request → Type 0
  Read got t = ((o : RestorePvc) → got ≡ ok o → IsRead o t) × DeletesLost t
