-- ===== src/Schedulers/RoundLaws.antt =====
-- What the schedules make the controller do, and when it looks again.
use backup_restore_openstack.Prelude.{◌≡◌, ◌≢◌, ◌⊎◌, inl, inr, refl, List, [], ◌∷◌, arith}
use backup_restore_openstack.Prelude.Int.{ℤ, ◌≤ℤ◌}
use backup_restore_openstack.Effects.Trace.{All}
use backup_restore_openstack.Utils.Sort.{insert_duration, sort_durations}
use backup_restore_openstack.Restores.ClaimLaws.{Any}
use backup_restore_openstack.Schedulers.Reconcile.{first_or, default_requeue, pick_requeue}

-- the shortest duration of a list stands first once it is sorted
abbrev pub IsLeast : ℤ → List ℤ → Type 0
IsLeast d es = All (λ e. d ≤ℤ e) es

insert-IsLeast : (d e : ℤ) (es : List ℤ) → e ≤ℤ d → IsLeast e es → IsLeast e (insert_duration d es)
unfolding insert_duration
insert-IsLeast d e [] h l = (h, tt)
insert-IsLeast d e (x ∷ xs) h l = let rest = insert-IsLeast d e xs h l.1 in ground (arith, rest)

abbrev IsSorted : List ℤ → Type 0
IsSorted [] = Unit
IsSorted (d ∷ ds) = IsLeast d ds × IsSorted ds

IsLeast-trans : (d e : ℤ) (es : List ℤ) → d ≤ℤ e → IsLeast e es → IsLeast d es
IsLeast-trans d e [] h l = tt
IsLeast-trans d e (x ∷ xs) h l = (omega (arith, h, l.0), IsLeast-trans d e xs h l.1)

insert-IsSorted : (d : ℤ) (es : List ℤ) → IsSorted es → IsSorted (insert_duration d es)
unfolding insert_duration
insert-IsSorted d [] s = (tt, tt)
insert-IsSorted d (e ∷ es) s =
    ground (arith, IsLeast-trans d e es, insert-IsLeast d e es, insert-IsSorted d es s.1)

sort-IsSorted : (ds : List ℤ) → IsSorted (sort_durations ds)
unfolding sort_durations
sort-IsSorted [] = tt
sort-IsSorted (d ∷ ds) = insert-IsSorted d (sort_durations ds) (sort-IsSorted ds)

-- every duration below all of the sorted list is below all of the list, and the other way round
insert-All : (P : ℤ → Type 0) (d : ℤ) (es : List ℤ) → All P (insert_duration d es) → P d × All P es
unfolding insert_duration
insert-All P d [] h = h
insert-All P d (e ∷ es) h = let rest = insert-All P d es in ground (arith, rest)

sort-All : (P : ℤ → Type 0) (ds : List ℤ) → All P (sort_durations ds) → All P ds
unfolding sort_durations
sort-All P [] h = tt
sort-All P (d ∷ ds) h =
    let both = insert-All P d (sort_durations ds) h in (both.0, sort-All P ds both.1)

from_insert : (P : ℤ → Type 0) (d : ℤ) (es : List ℤ) → Any P (insert_duration d es) → P d ⊎ Any P es
unfolding insert_duration
from_insert P d [] h = h
from_insert P d (e ∷ es) h = let rest = from_insert P d es in ground (arith, rest)

from_sort : (P : ℤ → Type 0) (ds : List ℤ) → Any P (sort_durations ds) → Any P ds
unfolding sort_durations
from_sort P [] h = h
from_sort P (d ∷ ds) h = elim (from_insert P d (sort_durations ds) h) [
  | inl p ↦ inl p
  | inr q ↦ inr (from_sort P ds q)
]

-- the first of a sorted list that is a rearrangement of `ds`
first_of_sorted :
    (ds es : List ℤ)
    → IsSorted es
    → ((P : ℤ → Type 0) → All P es → All P ds)
    → ((P : ℤ → Type 0) → Any P es → Any P ds)
    → es ≢ []
    → IsLeast (first_or default_requeue es) ds × Any (λ e. first_or default_requeue es ≡ e) ds
first_of_sorted ds [] s all any n = absurd (n refl)
first_of_sorted ds (e ∷ es) s all any n =
    (all (λ x. e ≤ℤ x) (omega arith, s.0), any (λ x. e ≡ x) (inl refl))

insert-cons : (d : ℤ) (es : List ℤ) → insert_duration d es ≢ []
unfolding insert_duration
insert-cons d [] h = cc
insert-cons d (e ∷ es) h = ground arith

-- The next round is after the shortest duration of the requeue list, which is one of the list, for
-- every list that is not empty.
pub pick_requeue-IsLeast :
    (d : ℤ) (ds : List ℤ)
    → IsLeast (pick_requeue (d ∷ ds)) (d ∷ ds) × Any (λ e. pick_requeue (d ∷ ds) ≡ e) (d ∷ ds)
unfolding pick_requeue sort_durations
pick_requeue-IsLeast d ds =
    first_of_sorted (d ∷ ds) (insert_duration d (sort_durations ds)) (sort-IsSorted (d ∷ ds))
      (λ P. sort-All P (d ∷ ds)) (λ P. from_sort P (d ∷ ds)) (insert-cons d (sort_durations ds))
