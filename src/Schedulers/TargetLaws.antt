-- ===== src/Schedulers/TargetLaws.antt =====
-- schedulersnapshot_controller.go, CompareBackupTargets.
use backup_restore_openstack.Prelude.{
  String, eq_iff, ◌≡◌, ◌↔◌, ap, sym, ◌∙◌, refl, Bool, true, false, Option, none, some, List, [],
  ◌∷◌, nat_eq, if◌then◌else◌, arith,
}
use backup_restore_openstack.Types.Kube.{CreateKubeSnapshotBackupTargets}
use backup_restore_openstack.Utils.Lists.{length}
use backup_restore_openstack.Utils.Sort.{sort_texts}
use backup_restore_openstack.Utils.SortLaws.{count, length-sort, sort_texts_iff}
use backup_restore_openstack.Schedulers.Objects.{
  names_of, sorted, same_bool, texts_equal, deep_equal, compare_backup_targets,
}

pub texts_equal_iff : (ss ts : List String) → (texts_equal ss ts ≡ true) ↔ (ss ≡ ts)
unfolding texts_equal
texts_equal_iff [] [] = ground arith
texts_equal_iff [] (t ∷ ts) = ground arith
texts_equal_iff (s ∷ ss) [] = ground arith
texts_equal_iff (s ∷ ss) (t ∷ ts) =
    let rest = texts_equal_iff ss ts in ground (arith, rest, eq_iff s t)

-- The same namespaces, in any order; where one has no list, the other has none.
abbrev pub SameNames : Option (List String) → Option (List String) → Type 0
SameNames none none = Unit
SameNames (some ss) (some ts) = (x : String) → count x ss ≡ count x ts
SameNames _ _ = ⊥

same_length : (ss ts : List String) → sort_texts ss ≡ sort_texts ts → length ss ≡ length ts
same_length ss ts h = sym (length-sort ss) ∙ (ap length h ∙ length-sort ts)

names_iff :
    (a b : Option (List String))
    → ((nat_eq (length (names_of a)) (length (names_of b)) ≡ true)
        × (deep_equal (sorted a) (sorted b) ≡ true))
      ↔ SameNames a b
unfolding deep_equal
names_iff none none = (λ h. tt, λ h. (refl, refl))
names_iff none (some ts) = ground arith
names_iff (some ss) none = ground arith
names_iff (some ss) (some ts) = (
  λ h. (sort_texts_iff ss ts).0 ((texts_equal_iff (sort_texts ss) (sort_texts ts)).0 h.1),
  λ h.
      let same = (sort_texts_iff ss ts).1 h in
      (
        ground (arith, same_length ss ts same),
        (texts_equal_iff (sort_texts ss) (sort_texts ts)).1 same,
      ),
)

-- the tests of the function, on what it compares
abbrev answer_of :
    Bool
    → Bool
    → Bool
    → Bool
    → CreateKubeSnapshotBackupTargets
    → CreateKubeSnapshotBackupTargets
    → Bool × CreateKubeSnapshotBackupTargets
answer_of x y l d b c = if same_bool x y then if l then (d, c) else (false, b) else (false, b)

tests_iff :
    (x y l d : Bool) (b c : CreateKubeSnapshotBackupTargets) (S : Type 0)
    → (((l ≡ true) × (d ≡ true)) ↔ S)
    → ((answer_of x y l d b c).0 ≡ true) ↔ ((x ≡ y) × S)
tests_iff x y l d b c S h = ground (arith, h)

-- CompareBackupTargets is true exactly of targets that both include, or both leave out, the cluster's
-- resources, and that name the same namespaces equally often, in any order; a list that is absent is
-- only like another that is absent.
pub compare_backup_targets_iff :
    (a b : CreateKubeSnapshotBackupTargets)
    → ((compare_backup_targets a b).0 ≡ true) ↔ (
        (a.include_cluster_resources ≡ b.include_cluster_resources)
        × SameNames a.include_namespaces b.include_namespaces)
unfolding compare_backup_targets
compare_backup_targets_iff a b =
    tests_iff a.include_cluster_resources b.include_cluster_resources _ _ b _ _
      (names_iff a.include_namespaces b.include_namespaces)
