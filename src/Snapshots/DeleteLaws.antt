-- ===== src/Snapshots/DeleteLaws.antt =====
-- When the finalizer of a deleted snapshot is taken off.
use backup_restore_openstack.Prelude.{◌≡◌, Option, none, List, [], ◌∷◌}
use backup_restore_openstack.Types.Meta.{Error}
use backup_restore_openstack.Types.Json.{Json}
use backup_restore_openstack.Restores.ClaimLaws.{Any}
use backup_restore_openstack.Types.Snapshot.{Snapshot, PvSnapshotItem}
use backup_restore_openstack.Effects.{
  Kind, Request, update, dynamic_delete, Answer, ok, err, Env, dynamic_list,
}
use backup_restore_openstack.Effects.Triple.{Triple}
use backup_restore_openstack.Utils.Const.{volume_snapshot}
use backup_restore_openstack.Utils.VolumeSnapshots.{read_items}

abbrev pub IsOk : {A : Type 0} → Answer A → Type 0
IsOk (ok a) = Unit
IsOk (err e) = ⊥

module _ (env : Env) (s : Snapshot) where
  -- the VolumeSnapshot of the snapshot
  abbrev pub IsOf : PvSnapshotItem → Type 0
  IsOf i = (i.snapshot_name ≡ s.meta.name) × (i.namespace ≡ s.spec.namespace)

  -- The last request deleted the VolumeSnapshot, and this was accepted; or it listed the namespace, and
  -- the VolumeSnapshot is not among what was listed.
  abbrev pub IsCleared : List Request → Type 0
  IsCleared (dynamic_delete r ns name ∷ t) =
      (r ≡ volume_snapshot)
      × (ns ≡ s.spec.namespace)
      × (name ≡ s.meta.name)
      × IsOk (env.answer t (dynamic_delete r ns name))
  IsCleared (dynamic_list r ns ∷ t) =
      (objects : List Json) × (r ≡ volume_snapshot)
      × (ns ≡ s.spec.namespace)
      × (env.answer t (dynamic_list r ns) ≡ ok objects)
      × ¬ Any IsOf (read_items env objects)
  IsCleared _ = ⊥

  -- Each update of a Snapshot comes right after that.
  abbrev pub IsReleased : List Request → Type 0
  IsReleased [] = Unit
  IsReleased (update Kind.snapshot o ∷ t) = IsCleared t × IsReleased t
  IsReleased (_ ∷ t) = IsReleased t

  -- after the deletions: if there was no error the VolumeSnapshot is gone
  abbrev After : Option Error → List Request → Type 0
  After r t = IsReleased t × (r ≡ none → IsCleared t)

  -- the last request listed these items
  abbrev IsListing : List PvSnapshotItem → List Request → Type 0
  IsListing items (dynamic_list r ns ∷ t) =
      (objects : List Json) × (r ≡ volume_snapshot)
      × (ns ≡ s.spec.namespace)
      × (env.answer t (dynamic_list r ns) ≡ ok objects)
      × (items ≡ read_items env objects)
  IsListing items _ = ⊥

  Listed : Answer (List PvSnapshotItem) → List Request → Type 0
  Listed a t = IsReleased t × ((items : List PvSnapshotItem) → a ≡ ok items → IsListing items t)
