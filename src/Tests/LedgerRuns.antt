-- ===== src/Tests/LedgerRuns.antt =====
-- The count of uses on a server that stores it.
use backup_restore_openstack.Prelude.{◌+◌, ◌≤◌, ◌≡◌, refl, List, [], ◌∷◌, if◌then◌else◌, arith}
use backup_restore_openstack.Prelude.Int.{ℤ, pos, wrap, ◌+ℤ◌}
use backup_restore_openstack.Types.Meta.{NamespacedName, new_meta}
use backup_restore_openstack.Types.Snapshot.{Snapshot}
use backup_restore_openstack.Effects.{
  Kind, Request, Reply, ok, Env, has_finalizer, set_condition, save_status, ◌>>=◌,
}
use backup_restore_openstack.Utils.Strings.{slice_from, contains}
use backup_restore_openstack.Utils.Kubeconfig.{get_secret_shoot_integrated_kubeconfig}
use backup_restore_openstack.Restores.Claim.{restore_pvc}
use backup_restore_openstack.Restores.InUse.{update_increase_in_use_snapshot}
use backup_restore_openstack.Restores.Restore.{reconcile_restore_pvc, remove_restore_annotation}
use backup_restore_openstack.Restores.Outcome.{
  handle_restore_pvc_success, update_restore_status, build_restore_pvc_status,
}
use backup_restore_openstack.Restores.Reconcile.{reconcile}
use backup_restore_openstack.Restores.Ledger.{Uses, takes, is_at, count, made, Moves, IsStore}
use backup_restore_openstack.Restores.Ledger.Bounds.{IsWithin}
use backup_restore_openstack.Command.Main.{Controller}
use backup_restore_openstack.System.{rounds}
use backup_restore_openstack.System as System
use backup_restore_openstack.Snapshots.Reconcile as SnapshotReconcile
use backup_restore_openstack.Snapshots.Reconcile.{reconcile_found, initialize}
use backup_restore_openstack.System.Laws.{rounds-Uses, rounds-IsWithin}
use backup_restore_openstack.Tests.Sample.{env, answer, unused_snapshot, restore}

abbrev key : NamespacedName
key = record { namespace = "fke-shoot"; name = "snap" }

abbrev request : NamespacedName
request = record { namespace = "fke-shoot"; name = "copy" }

abbrev stored : List Request → Snapshot
stored [] = unused_snapshot
stored (Request.update Kind.snapshot o ∷ t) =
    let rest = stored t in if is_at key o.meta then o else rest
stored (_ ∷ t) = stored t

-- every PVC is created, and the shoot lists none
abbrev storing : List Request → (q : Request) → Reply q
storing t (Request.get Kind.snapshot n) = ok (stored t)
storing t (Request.get Kind.restore_pvc n) = ok restore
storing t (Request.get Kind.secret n) =
    ok (record { meta = new_meta "user-integrated-kubeconfig" "fke-shoot"; kubeconfig = "config" })
storing t (Request.list Kind.secret n l) = ok (
    record { meta = new_meta "user-integrated-kubeconfig" "fke-shoot"; kubeconfig = "config" } ∷ [])
storing t (Request.update Kind.snapshot o) = ok o
storing t (Request.update_status Kind.snapshot o) = ok (stored t)
storing t (Request.list_pvcs n) = ok []
storing t q = answer t q

abbrev server : Env
server = record env { answer = storing }

stored-count : (t : List Request) → (stored t).spec.num_in_use ≡ count server key (pos 0) t
stored-count [] = refl
stored-count (Request.update Kind.snapshot o ∷ t) = ground (arith, stored-count t)
stored-count (_ ∷ t) = stored-count t

server-IsStore : IsStore server key (pos 0)
server-IsStore = record {
  reads = λ t k s h at. ground (arith, stored-count t);
  writes = λ t o s h at. ground (arith, h, at);
  status_writes = λ t o s h at. ground (arith, stored-count t);
}

-- the restore, the snapshot, and the restore again
abbrev work : List (Controller × NamespacedName)
work =
    (Controller.restore_pvc_reconciler, request)
    ∷ (Controller.create_snapshot_reconciler, key)
    ∷ (Controller.restore_pvc_reconciler, request)
    ∷ []

two : List Request
two = rounds server work []

two-is : (count server key (pos 0) two ≡ pos 2) × (made server two ≡ 2)
unfolding two System.reconcile reconcile SnapshotReconcile.reconcile reconcile_found initialize
    ◌>>=◌ has_finalizer set_condition save_status reconcile_restore_pvc slice_from
    get_secret_shoot_integrated_kubeconfig contains restore_pvc update_increase_in_use_snapshot
    remove_restore_annotation handle_restore_pvc_success update_restore_status
    build_restore_pvc_status wrap ◌+ℤ◌
two-is = (refl, refl)

rounds-Uses_example :
    Moves server key (pos 0) (rounds server work [])
    × (m : ℤ) × (u : Uses (pos 0) m) × (m ≡ count server key (pos 0) (rounds server work []))
    × (takes u ≤ made server (rounds server work []))
rounds-Uses_example = rounds-Uses server key (pos 0) server-IsStore work

rounds-IsWithin_example :
    IsWithin
      (count server key (pos 0) (rounds server work []))
      (0 + made server (rounds server work []))
unfolding two
rounds-IsWithin_example =
    rounds-IsWithin server key (pos 0) server-IsStore work 0 refl (omega (arith, two-is.1))
