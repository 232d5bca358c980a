-- ===== src/Snapshots/CreateLaws.antt =====
-- What ReconcileCreateSnapshot returns and asks for.
use backup_restore_openstack.Prelude.{
  ℕ, zero, suc, String, eq_iff, ◌≡◌, refl, Option, none, some, List, [], ◌∷◌, arith,
}
use backup_restore_openstack.Types.Meta.{Error}
use backup_restore_openstack.Types.Snapshot.{Snapshot, PvSnapshotItem}
use backup_restore_openstack.Effects.{M}
use backup_restore_openstack.Effects.Returns.{Returns, returns_rules}
use backup_restore_openstack.Snapshots.Create.{
  Created, created, find_item, accept_item, accept_or, poll, create_new, reconcile_create_snapshot,
}

-- the item that is returned with this error, if any
abbrev Carries : Snapshot → PvSnapshotItem → Option Error → Type 0
Carries s i none = (i.snapshot_name ≡ s.meta.name) × (i.source_pvc_name ≡ s.spec.pvc_name)
Carries s i (some e) = Unit

-- A result without an error has the VolumeSnapshot of this snapshot.
abbrev pub IsFor : Snapshot → Created → Type 0
IsFor s c = Carries s c.item c.error

find_item-matches :
    (name pvc : String) (items : List PvSnapshotItem) (i : PvSnapshotItem)
    → find_item name pvc items ≡ some i
    → (i.snapshot_name ≡ name) × (i.source_pvc_name ≡ pvc)
unfolding find_item
find_item-matches name pvc [] i h = cc
find_item-matches name pvc (x ∷ xs) i h = ground (
  arith,
  find_item-matches name pvc xs i,
  eq_iff x.snapshot_name name,
  eq_iff x.source_pvc_name pvc,
)

accept_item-IsFor :
    (s : Snapshot) (i : PvSnapshotItem)
    → (i.snapshot_name ≡ s.meta.name) × (i.source_pvc_name ≡ s.spec.pvc_name)
    → Returns (IsFor s) (accept_item s i)
unfolding accept_item
accept_item-IsFor s i h = search returns_rules depth 8

accept_or-IsFor :
    (s : Snapshot) (other : M Created) (o : Option PvSnapshotItem)
    → ((i : PvSnapshotItem)
        → o ≡ some i
        → (i.snapshot_name ≡ s.meta.name) × (i.source_pvc_name ≡ s.spec.pvc_name))
    → Returns (IsFor s) other
    → Returns (IsFor s) (accept_or s other o)
unfolding accept_or
accept_or-IsFor s other none h k = k
accept_or-IsFor s other (some i) h k = accept_item-IsFor s i (h i refl)

listing-IsFor :
    (s : Snapshot) (other : M Created) (items : List PvSnapshotItem)
    → Returns (IsFor s) other
    → Returns (IsFor s) (accept_or s other (find_item s.meta.name s.spec.pvc_name items))
listing-IsFor s other items =
    accept_or-IsFor s other (find_item s.meta.name s.spec.pvc_name items)
      (find_item-matches s.meta.name s.spec.pvc_name items)

failed-IsFor : (s o : Snapshot) (i : PvSnapshotItem) (e : Error) → IsFor s (created o i (some e))
failed-IsFor s o i e = tt

poll-IsFor : (n : ℕ) (s : Snapshot) → Returns (IsFor s) (poll n s)
unfolding poll
poll-IsFor zero s = search (returns_rules, failed-IsFor)
poll-IsFor (suc n) s =
    let later = poll-IsFor n s in search (returns_rules, listing-IsFor, later) depth 8

create_new-IsFor : (s : Snapshot) → Returns (IsFor s) (create_new s)
unfolding create_new
create_new-IsFor s = search (returns_rules, failed-IsFor, poll-IsFor) depth 9

-- Whatever the API servers answer, if ReconcileCreateSnapshot returns no error then the item that it
-- returns carries the snapshot's name and the source PVC that its spec names.
pub reconcile_create_snapshot-IsFor :
    (s : Snapshot) → Returns (IsFor s) (reconcile_create_snapshot s)
unfolding reconcile_create_snapshot
reconcile_create_snapshot-IsFor s =
    search (returns_rules, failed-IsFor, listing-IsFor, create_new-IsFor) depth 12
