-- ===== src/Schedulers/TargetView.antt =====
-- schedulersnapshot_controller.go, CompareBackupTargets: the targets without the order of their
-- namespaces, as a quotient.
use Prim.Native.Char.{IsScalar}
use text.Mathlib.TextEquality.{IsScalar-prop}
use mathlib.Core.HLevel.{prop→set}
use mathlib.Core.Quot
use mathlib.Core.Quot.{Quot}
use backup_restore_openstack.Prelude.{
  ℕ, refl, String, ◌≡◌, ◌↔◌, ap, Bool, true, Option, none, some, List,
}
use backup_restore_openstack.Types.Kube.{CreateKubeSnapshotBackupTargets}
use backup_restore_openstack.Utils.Sort.{sort_texts}
use backup_restore_openstack.Utils.SortLaws.{count, sort_texts_iff}
use backup_restore_openstack.Schedulers.Objects.{compare_backup_targets}
use backup_restore_openstack.Schedulers.TargetLaws.{SameNames, compare_backup_targets_iff}

abbrev pub SameItems : List String → List String → Type 0
SameItems ss ts = (x : String) → count x ss ≡ count x ts

-- namespaces in no order
abbrev pub Names : Type 0
Names = Quot SameItems

abbrev pub names_view : Option (List String) → Option Names
names_view none = none
names_view (some ss) = some (Quot.mk ss)

-- what the targets mean: whether the cluster's resources are included, and the namespaces
abbrev pub view : CreateKubeSnapshotBackupTargets → Bool × Option Names
view a = (a.include_cluster_resources, names_view a.include_namespaces)

IsScalar-IsSet : (n : ℕ) → IsSet (IsScalar n)
IsScalar-IsSet n = prop→set (IsScalar-prop n)

texts_set : IsSet (List String)
texts_set = hlevel (IsScalar-IsSet)

-- the normal form of a class: its names, sorted
normal : Names → List String
normal = Quot.lift texts_set sort_texts (λ ss ts h. (sort_texts_iff ss ts).1 h)

normal_or : Option Names → Option (List String)
normal_or none = none
normal_or (some n) = some (normal n)

view_iff : (a b : Option (List String)) → SameNames a b ↔ (names_view a ≡ names_view b)
unfolding normal normal_or
view_iff none none = (λ h. refl, λ h. tt)
view_iff none (some ts) = (λ h. absurd h, λ h. cc)
view_iff (some ss) none = (λ h. absurd h, λ h. cc)
view_iff (some ss) (some ts) =
    (λ h. ap some (Quot.sound h), λ h. let sorted = ap normal_or h in (sort_texts_iff ss ts).0 (cc))

-- CompareBackupTargets decides equality of the targets, once the order of the namespaces is forgotten.
pub compare_backup_targets-view :
    (a b : CreateKubeSnapshotBackupTargets)
    → ((compare_backup_targets a b).0 ≡ true) ↔ (view a ≡ view b)
compare_backup_targets-view a b =
    let both = compare_backup_targets_iff a b in
    let names = view_iff a.include_namespaces b.include_namespaces in
    (
      λ h. let (same, listed) = both.0 h in λ i. (same i, names.0 listed i),
      λ h. both.1 (ap (λ v. v.0) h, names.1 (ap (λ v. v.1) h)),
    )
