-- ===== src/Snapshots/OnceLaws.antt =====
-- How many VolumeSnapshots a round of the Snapshot controller creates.
use backup_restore_openstack.Prelude.{
  ℕ, zero, suc, ◌≤◌, ◌*◌, String, ◌==◌, Bool, true, false, Option, none, some, List, [], ◌∷◌,
  if◌then◌else◌, arith,
}
use backup_restore_openstack.Types.Snapshot.{Snapshot, PvSnapshotItem}
use backup_restore_openstack.Effects.{
  Request, dynamic_create, connect_dynamic, sleep, Env, M, pure, unless, save, call, ◌>>=◌,
}
use backup_restore_openstack.Effects.Triple.{
  Triple, trace_of, Triple-pure, Triple-panic, Triple-bind, Triple-then, Triple-check,
  Triple-unless, Triple-call, Triple-weaken,
}
use backup_restore_openstack.Utils.Const.{second, volume_snapshot}
use backup_restore_openstack.Utils.Kubeconfig.{get_secret_shoot_integrated_kubeconfig}
use backup_restore_openstack.Utils.VolumeSnapshots.{
  get_pv_snapshot_list_per_namespace, check_volume_snapshot_classes, create_volume_snapshot_classes,
}
use backup_restore_openstack.Snapshots.Create.{
  Created, find_item, accept_item, accept_or, create_snapshot, poll, ensure_class, create_new,
  reconcile_create_snapshot,
}

-- the VolumeSnapshots that were asked for
abbrev pub creations : List Request → ℕ
creations [] = 0
creations (dynamic_create r ns o ∷ t) =
    let rest = creations t in if r == volume_snapshot then suc rest else rest
creations (_ ∷ t) = creations t

abbrev AtMost : ℕ → List Request → Type 0
AtMost n t = creations t ≤ n

module _ (env : Env) where
  -- an action that creates none
  abbrev Keeps : {A : Type 0} → ℕ → M A → Type 0
  Keeps n m = Triple env (AtMost 1) (AtMost n) m (λ _. AtMost n)

  kubeconfig-Keeps : (ns : String) → Keeps 0 (get_secret_shoot_integrated_kubeconfig ns)
  unfolding get_secret_shoot_integrated_kubeconfig ◌>>=◌
  kubeconfig-Keeps ns = record { at = λ t h. ground arith }

  listing-Keeps : (n : ℕ) (ns : String) → Keeps n (get_pv_snapshot_list_per_namespace ns)
  unfolding get_pv_snapshot_list_per_namespace ◌>>=◌
  listing-Keeps n ns = record { at = λ t h. ground arith }

  connect-Keeps : (config cluster : String) → Keeps 0 (call (connect_dynamic config cluster))
  connect-Keeps config cluster = Triple-call (connect_dynamic config cluster) (λ t h. h)

  sleep-Keeps : (d : ℕ) → Keeps 1 (call (sleep d))
  sleep-Keeps d = Triple-call (sleep d) (λ t h. h)

  classes-Keeps : Keeps 0 check_volume_snapshot_classes
  unfolding check_volume_snapshot_classes ◌>>=◌
  classes-Keeps = record { at = λ t h. ground arith }

  ensure_class-Keeps : (b : Bool) → Keeps 0 (ensure_class b)
  unfolding ensure_class create_volume_snapshot_classes ◌>>=◌
  ensure_class-Keeps true = record { at = λ t h. h }
  ensure_class-Keeps false = record { at = λ t h. ground arith }

  accept_item-Keeps : (n : ℕ) (s : Snapshot) (i : PvSnapshotItem) → Keeps n (accept_item s i)
  unfolding accept_item save unless ◌>>=◌
  accept_item-Keeps n s i = record { at = λ t h. ground arith }

  accept_or-Triple :
      (n : ℕ) (s : Snapshot) (other : M Created) (o : Option PvSnapshotItem)
      → n ≤ 1
      → Triple env (AtMost 1) (AtMost n) other (λ _. AtMost 1)
      → Triple env (AtMost 1) (AtMost n) (accept_or s other o) (λ _. AtMost 1)
  unfolding accept_or
  accept_or-Triple n s other none h k = k
  accept_or-Triple n s other (some i) h k =
      Triple-weaken (accept_item s i) (λ _ t q. omega (arith, h, q)) (accept_item-Keeps n s i)

  poll-Keeps : (n : ℕ) (s : Snapshot) → Keeps 1 (poll n s)
  unfolding poll
  poll-Keeps zero s = Triple-pure _ (λ t h. h)
  poll-Keeps (suc n) s = Triple-then (call (sleep (2 * second))) _ (sleep-Keeps (2 * second)) λ _.
      Triple-then _ _ (listing-Keeps 1 s.spec.namespace) λ listed.
        Triple-check listed _ _ (λ e _. poll-Keeps n s)
          (λ items _.
            accept_or-Triple 1 s (poll n s) (find_item s.meta.name s.spec.pvc_name items)
              (omega arith) (poll-Keeps n s))

  create_snapshot-AtMost :
      (name class pvc ns : String)
      → Triple env (AtMost 1) (AtMost 0) (create_snapshot name class pvc ns) (λ _. AtMost 1)
  unfolding create_snapshot ◌>>=◌
  create_snapshot-AtMost name class pvc ns = record { at = λ t h. ground arith }

  stops-AtMost :
      (n : ℕ) (c : Created) → n ≤ 1 → Triple env (AtMost 1) (AtMost n) (pure c) (λ _. AtMost 1)
  stops-AtMost n c h = Triple-pure c (λ t k. omega (arith, h, k))

  create_new-AtMost :
      (s : Snapshot) → Triple env (AtMost 1) (AtMost 0) (create_new s) (λ _. AtMost 1)
  unfolding create_new
  create_new-AtMost s = Triple-then _ _ classes-Keeps λ existed.
      Triple-check existed _ _ (λ e _. stops-AtMost 0 _ (omega arith))
        λ there _. Triple-then _ _ (ensure_class-Keeps there) λ _.
          Triple-bind {Q = λ _. AtMost 1} _ _ (create_snapshot-AtMost _ _ _ _) λ failed.
            Triple-unless failed _ _ (λ e _. stops-AtMost 1 _ (omega arith)) (λ _. poll-Keeps 5 s)

  round-AtMost :
      (s : Snapshot)
      → Triple env (AtMost 1) (AtMost 0) (reconcile_create_snapshot s) (λ _. AtMost 1)
  unfolding reconcile_create_snapshot
  round-AtMost s = Triple-then _ _ (kubeconfig-Keeps s.meta.namespace) λ kubeconfig.
      Triple-check kubeconfig _ _ (λ e _. stops-AtMost 0 _ (omega arith))
        λ config _. Triple-then _ _ (connect-Keeps config _) λ connected.
          Triple-check connected _ _ (λ e _. stops-AtMost 0 _ (omega arith))
            λ _ _. Triple-then _ _ (listing-Keeps 0 s.spec.namespace) λ listed.
              Triple-check listed _ _ (λ e _. Triple-panic (λ t h. omega (arith, h)))
                (λ items _.
                  accept_or-Triple 0 s (create_new s) (find_item s.meta.name s.spec.pvc_name items)
                    (omega arith) (create_new-AtMost s))

  -- ReconcileCreateSnapshot asks at most once for a VolumeSnapshot, whatever the API servers answer.
  pub creations-reconcile_create_snapshot :
      (s : Snapshot) → creations (reconcile_create_snapshot s env []).1 ≤ 1
  creations-reconcile_create_snapshot s =
      trace_of (AtMost 1) (reconcile_create_snapshot s env [])
        ((round-AtMost s).at [] (omega arith))
