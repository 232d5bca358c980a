-- ===== src/System/Laws.antt =====
-- All controllers together: the count of uses that the server stores for a Snapshot.
use backup_restore_openstack.Prelude.{
  ℕ, ◌+◌, ◌^◌, ◌<◌, ◌≤◌, ◌≡◌, ◌∙◌, sym, refl, List, [], ◌∷◌, arith,
}
use backup_restore_openstack.Prelude.Int.{ℤ, pos}
use backup_restore_openstack.Types.Meta.{NamespacedName}
use backup_restore_openstack.Effects.{Request, Env, M, Reconciled}
use backup_restore_openstack.Effects.Triple.{Triple, trace_of}
use backup_restore_openstack.Command.Main.{Controller}
use backup_restore_openstack.Restores.Ledger.{Uses, here, takes, count, made, Moves, IsStore}
use backup_restore_openstack.Restores.Ledger.Bounds.{IsWithin, Uses-IsWithin}
use backup_restore_openstack.Restores.Ledger.Steps
use backup_restore_openstack.Restores.Ledger.Rounds
use backup_restore_openstack.System.Frame
use backup_restore_openstack.System.PvSnapshotFrame
use backup_restore_openstack.System.PvcFrame
use backup_restore_openstack.System.SchedulerFrame
use backup_restore_openstack.System.SyncFrame
use backup_restore_openstack.System.KubeFrame
use backup_restore_openstack.System.SnapshotRounds
use backup_restore_openstack.System.{reconcile, rounds}

module _ (env : Env) (key : NamespacedName) (first : ℤ) (store : IsStore env key first) where
  abbrev Spare : List Request → Type 0
  Spare = Steps.Spare env key first store 0

  -- a round that leaves the count and the PVCs leaves the run of the abstract count
  framed :
      (a : M Reconciled) (t : List Request)
      → ((n : ℤ) (m : ℕ)
          → Triple env
              (Frame.Same env key first n m)
              (Frame.Same env key first n m)
              a
              (λ _. Frame.Same env key first n m))
      → Spare t
      → Spare (a env t).1
  framed a t h (m, u, e, l, v) =
      let (ec, em, ev) =
        trace_of (Frame.Same env key first (count env key first t) (made env t)) (a env t)
          ((h (count env key first t) (made env t)).at t (refl, refl, v)) in
      (m, u, e ∙ sym ec, omega (arith, em, l), ev)

  round-Spare :
      (c : Controller) (req : NamespacedName) (t : List Request)
      → Spare t
      → Spare (reconcile c req env t).1
  unfolding reconcile
  round-Spare Controller.pv_snapshot_reconciler req t s =
      framed _ t (λ n m. PvSnapshotFrame.reconcile-Keeps env key first n m req) s
  round-Spare Controller.pvc_reconciler req t s =
      framed _ t (λ n m. PvcFrame.reconcile-Keeps env key first n m req) s
  round-Spare Controller.restore_pvc_reconciler req t s =
      trace_of Spare _ ((Rounds.reconcile-Keeps env key first store req).at t s)
  round-Spare Controller.create_snapshot_reconciler req t s =
      framed _ t (λ n m. SnapshotRounds.reconcile-Keeps env key first store n m req) s
  round-Spare Controller.scheduler_snapshot_reconciler req t s =
      framed _ t (λ n m. SchedulerFrame.reconcile-Keeps env key first n m req) s
  round-Spare Controller.sync_snapshot_reconciler req t s =
      framed _ t (λ n m. SyncFrame.reconcile-Keeps env key first n m req) s
  round-Spare Controller.create_kube_snapshot_reconciler req t s =
      framed _ t (λ n m. KubeFrame.reconcile-Keeps env key first n m req) s

  rounds-Spare :
      (work : List (Controller × NamespacedName)) (t : List Request)
      → Spare t
      → Spare (rounds env work t)
  rounds-Spare [] t s = s
  rounds-Spare ((c, req) ∷ work) t s =
      rounds-Spare work (reconcile c req env t).1 (round-Spare c req t s)

  -- Over any rounds of the seven controllers, one after another, for any objects and whatever else the
  -- API servers answer, panics included, each write of a Snapshot that the server accepts leaves the
  -- count of uses that it stores, raises it by one, or lowers it by one where it is positive; and the
  -- stored count is reached by a run of such steps that goes up at most once for each PVC that was
  -- created; provided that what the server answers carries the count last stored.
  pub rounds-Uses :
      (work : List (Controller × NamespacedName))
      → Moves env key first (rounds env work [])
        × (m : ℤ) × (u : Uses first m) × (m ≡ count env key first (rounds env work []))
        × (takes u ≤ made env (rounds env work []))
  rounds-Uses work =
      let (m, u, e, l, v) = rounds-Spare work [] (first, here, refl, omega arith, tt) in
      (v, m, u, e, omega (arith, l))

  -- Over any rounds of the seven controllers, one after another, the count of a Snapshot that started at
  -- a number stays a number, never negative, and at most that number and the PVCs that were created since,
  -- as long as their sum fits in a 64-bit integer; provided that what the server answers carries the count
  -- last stored.
  pub rounds-IsWithin :
      (work : List (Controller × NamespacedName)) (a : ℕ)
      → first ≡ pos a
      → a + made env (rounds env work []) < 2 ^ 63
      → IsWithin (count env key first (rounds env work [])) (a + made env (rounds env work []))
  rounds-IsWithin work a e h =
      let (v, m, u, same, l) = rounds-Uses work in
      let (b, eq, k) = Uses-IsWithin u a e (omega (arith, l, h)) in
      (b, sym same ∙ eq, omega (arith, k, l))
