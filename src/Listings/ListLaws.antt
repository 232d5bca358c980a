-- ===== src/Listings/ListLaws.antt =====
-- When the listing of PVCs counts as unchanged, and what is then written.
use backup_restore_openstack.Prelude.{eq_iff, ◌≡◌, ◌≢◌, ◌↔◌, true, false, List, [], ◌∷◌, arith}
use backup_restore_openstack.Types.Lists.{Pvc, PvcDetail}
use backup_restore_openstack.Effects.{Kind, Request, update_status}
use backup_restore_openstack.Effects.Trace.{Issues, Issues-if, issues_rules}
use backup_restore_openstack.Schedulers.TargetLaws.{texts_equal_iff}
use backup_restore_openstack.Listings.PvcList.{
  detail_equal, details_equal, clear_annotation, write_list,
}

detail_equal_iff : (a b : PvcDetail) → (detail_equal a b ≡ true) ↔ (a ≡ b)
unfolding detail_equal
detail_equal_iff a b = ground (
  arith,
  eq_iff a.pvc_name b.pvc_name,
  eq_iff a.resources b.resources,
  eq_iff a.source_snapshot_name b.source_snapshot_name,
  eq_iff a.namespace b.namespace,
  eq_iff a.volume_name b.volume_name,
  eq_iff a.storage_class_name b.storage_class_name,
  texts_equal_iff a.access_mode b.access_mode,
  eq_iff a.volume_mode b.volume_mode,
  eq_iff a.status b.status,
  eq_iff a.creation_time b.creation_time,
)

details_equal_iff : (xs ys : List PvcDetail) → (details_equal xs ys ≡ true) ↔ (xs ≡ ys)
unfolding details_equal
details_equal_iff [] [] = ground arith
details_equal_iff [] (b ∷ others) = ground arith
details_equal_iff (a ∷ rest) [] = ground arith
details_equal_iff (a ∷ rest) (b ∷ others) =
    ground (arith, details_equal_iff rest others, detail_equal_iff a b)

-- A status that is written for a Pvc holds the listing, and the one before was another.
abbrev pub IsNew : Pvc → List PvcDetail → Request → Type 0
IsNew o pvcs (update_status Kind.pvc p) = (p.status.pvc_list ≡ pvcs) × (o.status.pvc_list ≢ pvcs)
IsNew o pvcs _ = Unit

changed : (xs ys : List PvcDetail) → details_equal xs ys ≡ false → xs ≢ ys
changed xs ys h same = ground (arith, h, (details_equal_iff xs ys).1 same)

clear_annotation-IsNew :
    (o p : Pvc) (pvcs : List PvcDetail) → Issues (IsNew o pvcs) (clear_annotation p)
unfolding clear_annotation
clear_annotation-IsNew o p pvcs = search issues_rules depth 9

-- What ReconcilePvc does with the listing of the shoot writes the status of the Pvc only when the listing
-- differs from the one that it holds, and then with that listing. The writes of conditions in Reconcile
-- are not meant.
pub write_list-IsNew : (o : Pvc) (pvcs : List PvcDetail) → Issues (IsNew o pvcs) (write_list o pvcs)
unfolding write_list
write_list-IsNew o pvcs =
    Issues-if (details_equal o.status.pvc_list pvcs) _ _ (λ _. clear_annotation-IsNew o o pvcs)
      (λ h.
        let new = changed o.status.pvc_list pvcs h in
        search (issues_rules, clear_annotation-IsNew, new) depth 9)
