-- ===== src/Restores/InUse.antt =====
-- restorepvc_controller.go: updateIncrease_InUseSnapshot and updateDecrease_InUseSnapshot.
use backup_restore_openstack.Prelude.{Option, none, some, [], ◌∷◌, concat, if◌then◌else◌}
use backup_restore_openstack.Prelude.Int.{ℤ, pos, negsuc, ◌+ℤ◌, leb_ℤ, wrap}
use backup_restore_openstack.Types.Meta.{NamespacedName, Error, is_not_found, wrapped}
use backup_restore_openstack.Types.Snapshot.{Snapshot}
use backup_restore_openstack.Types.Restore.{RestorePvc}
use backup_restore_openstack.Effects.{Kind, get, update, M, pure, check, call, ◌>>=◌}

-- client.ObjectKey{Name: restorePvc.Spec.SnapshotName, Namespace: restorePvc.Namespace}
abbrev pub snapshot_key : RestorePvc → NamespacedName
snapshot_key r = record { namespace = r.meta.namespace; name = r.spec.snapshot_name }

-- the snapshot with the count changed by a 64-bit addition
abbrev pub with_use : ℤ → Snapshot → Snapshot
with_use d s = record s { spec = record s.spec { num_in_use = wrap 64 (s.spec.num_in_use +ℤ d) } }

unfoldable pub write_use : Snapshot → M (Option Error)
write_use s = do
  updated ← call (update Kind.snapshot s)
  check updated
      (λ e.
        pure (some (wrapped e (concat ("failed to update snapshot NumInUse: " ∷ e.message ∷ [])))))
      (λ _. pure none)

unfoldable pub update_increase_in_use_snapshot : RestorePvc → M (Option Error)
unfolding write_use
update_increase_in_use_snapshot r = do
  got ← call (get Kind.snapshot (snapshot_key r))
  check got (λ e. pure (some e)) (λ s. write_use (with_use (pos 1) s))

unfoldable pub update_decrease_in_use_snapshot : RestorePvc → M (Option Error)
unfolding write_use
update_decrease_in_use_snapshot r = do
  got ← call (get Kind.snapshot (snapshot_key r))
  check got (λ e. if is_not_found e then pure none else pure (some e))
      (λ s.
        if leb_ℤ s.spec.num_in_use (pos 0) then pure none else write_use (with_use (negsuc 0) s))
