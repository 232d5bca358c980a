-- ===== src/Restores/UseLaws.antt =====
-- The count of the uses of a snapshot, and when the finalizer of a restore is taken off.
use backup_restore_openstack.Prelude.{ℕ, ◌<◌, ◌^◌, ◌≡◌, true, List, [], ◌∷◌, arith}
use backup_restore_openstack.Prelude.Int.{ℤ, ◌≤ℤ◌, pos, negsuc, ◌+ℤ◌, leb_ℤ, wrap}
use backup_restore_openstack.Types.Meta.{is_not_found}
use backup_restore_openstack.Types.Snapshot.{Snapshot}
use backup_restore_openstack.Types.Restore.{RestorePvc}
use backup_restore_openstack.Effects.{
  Answer, Kind, Request, get, update, ok, err, Env, pure, check, unless, save, has_finalizer,
  drop_finalizer, call, ◌>>=◌,
}
use backup_restore_openstack.Snapshots.DeleteLaws.{IsOk}
use backup_restore_openstack.Restores.InUse.{
  snapshot_key, write_use, update_decrease_in_use_snapshot,
}
use backup_restore_openstack.Restores.Reconcile.{release_use, finalize}

pub wrap_up : (n : ℕ) → n < 2 ^ 63 → wrap 64 (pos n) ≡ pos n
unfolding wrap
wrap_up n h = ground arith

at_most_zero : (z : ℤ) → leb_ℤ z (pos 0) ≡ true → z ≤ℤ pos 0
at_most_zero z h = ground arith

-- What stands before the finalizer is taken off.
module _ (env : Env) (r : RestorePvc) where
  -- there is no use to count down: the snapshot is gone, or its count is not positive
  abbrev pub IsUncounted : Answer Snapshot → Type 0
  IsUncounted (ok s) = s.spec.num_in_use ≤ℤ pos 0
  IsUncounted (err e) = is_not_found e ≡ true

  -- the last request read the restore's snapshot, and there is no use to count down
  abbrev pub IsLooked : List Request → Type 0
  IsLooked (get Kind.snapshot k ∷ t) =
      (k ≡ snapshot_key r) × IsUncounted (env.answer t (get Kind.snapshot k))
  IsLooked _ = ⊥

  -- the last request read the restore's snapshot, and `o` is that snapshot with one use less
  abbrev pub IsLowered : Snapshot → List Request → Type 0
  IsLowered o (get Kind.snapshot k ∷ t) =
      (s : Snapshot) × (k ≡ snapshot_key r)
      × (env.answer t (get Kind.snapshot k) ≡ ok s)
      × (o.meta ≡ s.meta)
      × (o.spec.num_in_use ≡ wrap 64 (s.spec.num_in_use +ℤ negsuc 0))
  IsLowered o _ = ⊥

  -- The use of the restore is counted down, and this was accepted; or there is none to count down.
  abbrev pub IsCountedDown : List Request → Type 0
  IsCountedDown (update Kind.snapshot o ∷ t) =
      IsOk (env.answer t (update Kind.snapshot o)) × IsLowered o t
  IsCountedDown t = IsLooked t

  -- Each update of a RestorePvc comes right after that.
  abbrev pub IsReleased : List Request → Type 0
  IsReleased [] = Unit
  IsReleased (update Kind.restore_pvc o ∷ t) = IsCountedDown t × IsReleased t
  IsReleased (_ ∷ t) = IsReleased t

  -- Where the namespace is not being deleted, the deletion branch (finalize) updates the RestorePvc only
  -- right after the count of the snapshot that it names was read and lowered by one, and this was
  -- accepted; or right after that snapshot was not found, or its count was not positive.
  pub finalize-IsReleased : IsReleased (finalize r env []).1
  unfolding finalize release_use has_finalizer drop_finalizer update_decrease_in_use_snapshot
      write_use save check unless pure call ◌>>=◌
  finalize-IsReleased = grind (arith, at_most_zero)
