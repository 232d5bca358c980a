-- ===== src/Utils/SortLaws.antt =====
-- sort.Strings: two lists have the same sort exactly when each text occurs in both equally often.
use Prim.Native.Char.{Char, code}
use text.Mathlib.TextEquality.{Char-path}
use backup_restore_openstack.Prelude.{
  ℕ, ◌+◌, ◌≤◌, String, ◌==◌, eq_iff, eq_refl, ◌≡◌, ◌↔◌, ap, sym, ◌∙◌, ◌⊎◌, inl, inr, refl, true,
  List, [], ◌∷◌, if◌then◌else◌, arith,
}
use backup_restore_openstack.Effects.Trace.{All}
use backup_restore_openstack.Utils.Lists.{length}
use backup_restore_openstack.Utils.Sort.{leb_text, insert_text, sort_texts}

leb_text-total : (s t : String) → (leb_text s t ≡ true) ⊎ (leb_text t s ≡ true)
unfolding leb_text
leb_text-total String.[] t = inl refl
leb_text-total (String.◌∷◌ c s) String.[] = inr refl
leb_text-total (String.◌∷◌ c s) (String.◌∷◌ d t) =
    let rest = leb_text-total s t in ground (arith, rest)

leb_text_trans : (s t u : String) → leb_text s t ≡ true → leb_text t u ≡ true → leb_text s u ≡ true
unfolding leb_text
leb_text_trans String.[] t u h k = refl
leb_text_trans (String.◌∷◌ c s) String.[] u h k = ground arith
leb_text_trans (String.◌∷◌ c s) (String.◌∷◌ d t) String.[] h k = ground arith
leb_text_trans (String.◌∷◌ c s) (String.◌∷◌ d t) (String.◌∷◌ e u) h k =
    let rest = leb_text_trans s t u in ground (arith, rest)

same_head : (c d : Char) (s t : String) → code c ≡ code d → s ≡ t → String.◌∷◌ c s ≡ String.◌∷◌ d t
same_head c d s t h k = λ i. String.◌∷◌ (Char-path c d h i) (k i)

leb_text-antisym : (s t : String) → leb_text s t ≡ true → leb_text t s ≡ true → s ≡ t
unfolding leb_text
leb_text-antisym String.[] String.[] h k = refl
leb_text-antisym String.[] (String.◌∷◌ d t) h k = ground arith
leb_text-antisym (String.◌∷◌ c s) String.[] h k = ground arith
leb_text-antisym (String.◌∷◌ c s) (String.◌∷◌ d t) h k =
    let rest = leb_text-antisym s t in
    same_head c d s t (ground arith) (rest (ground arith) (ground arith))

-- how often a text occurs
unfoldable pub count : String → List String → ℕ
count x [] = 0
count x (s ∷ ss) = let rest = count x ss in if s == x then rest + 1 else rest

count-insert : (x s : String) (ts : List String) → count x (insert_text s ts) ≡ count x (s ∷ ts)
unfolding count insert_text
count-insert x s [] = refl
count-insert x s (t ∷ ts) = let rest = count-insert x s ts in ground (arith, rest)

count-sort : (x : String) (ss : List String) → count x (sort_texts ss) ≡ count x ss
unfolding sort_texts count
count-sort x [] = refl
count-sort x (s ∷ ss) =
    let rest = count-sort x ss in ground (arith, rest, count-insert x s (sort_texts ss))

length-insert : (s : String) (ts : List String) → length (insert_text s ts) ≡ length (s ∷ ts)
unfolding insert_text
length-insert s [] = refl
length-insert s (t ∷ ts) = let rest = length-insert s ts in ground (arith, rest)

pub length-sort : (ss : List String) → length (sort_texts ss) ≡ length ss
unfolding sort_texts
length-sort [] = refl
length-sort (s ∷ ss) =
    let rest = length-sort ss in ground (arith, rest, length-insert s (sort_texts ss))

abbrev Below : String → List String → Type 0
Below s ts = All (λ t. leb_text s t ≡ true) ts

abbrev IsSorted : List String → Type 0
IsSorted [] = Unit
IsSorted (s ∷ ss) = Below s ss × IsSorted ss

Below-trans : (s t : String) (ts : List String) → leb_text s t ≡ true → Below t ts → Below s ts
Below-trans s t [] h b = tt
Below-trans s t (u ∷ us) h b = (leb_text_trans s t u h b.0, Below-trans s t us h b.1)

Below-insert :
    (x s : String) (ts : List String)
    → leb_text x s ≡ true
    → Below x ts
    → Below x (insert_text s ts)
unfolding insert_text
Below-insert x s [] h b = (h, tt)
Below-insert x s (t ∷ ts) h b = let rest = Below-insert x s ts h b.1 in ground (arith, rest)

insert-IsSorted : (s : String) (ts : List String) → IsSorted ts → IsSorted (insert_text s ts)
unfolding insert_text
insert-IsSorted s [] h = (tt, tt)
insert-IsSorted s (t ∷ ts) h =
    ground
      (arith, Below-trans s t ts, Below-insert t s ts, insert-IsSorted s ts h.1, leb_text-total s t)

sort-IsSorted : (ss : List String) → IsSorted (sort_texts ss)
unfolding sort_texts
sort-IsSorted [] = tt
sort-IsSorted (s ∷ ss) = insert-IsSorted s (sort_texts ss) (sort-IsSorted ss)

occurs-Below : (s x : String) (ts : List String) → Below s ts → 1 ≤ count x ts → leb_text s x ≡ true
unfolding count
occurs-Below s x [] b h = ground arith
occurs-Below s x (t ∷ ts) b h =
    let rest = occurs-Below s x ts b.1 in ground (arith, rest, eq_iff t x)

leb_text_refl : (s : String) → leb_text s s ≡ true
leb_text_refl s = ground (arith, leb_text-total s s)

head_count : (s : String) (ss : List String) → 1 ≤ count s (s ∷ ss)
unfolding count
head_count s ss = ground (arith, eq_refl s)

head-Below :
    (s t : String) (ss ts : List String)
    → Below t ts
    → ((x : String) → count x (s ∷ ss) ≡ count x (t ∷ ts))
    → leb_text t s ≡ true
head-Below s t ss ts b h =
    occurs-Below t s (t ∷ ts) (leb_text_refl t, b) (omega (arith, h s, head_count s ss))

tail_count :
    (s : String) (ss ts : List String) (x : String)
    → count x (s ∷ ss) ≡ count x (s ∷ ts)
    → count x ss ≡ count x ts
unfolding count
tail_count s ss ts x h = ground arith

no_count : (t : String) (ts : List String) → count t [] ≡ count t (t ∷ ts) → ⊥
unfolding count
no_count t ts h = ground (arith, head_count t ts, h)

equal_lists :
    (s t : String) (ss ts : List String)
    → s ≡ t
    → ((x : String) → count x (s ∷ ss) ≡ count x (t ∷ ts))
    → (((x : String) → count x ss ≡ count x ts) → ss ≡ ts)
    → (s ∷ ss) ≡ (t ∷ ts)
equal_lists s t ss ts e h k =
    ap (λ u. u ∷ ss) e
    ∙ ap (λ us. t ∷ us) (k (λ x. tail_count t ss ts x (ap (λ u. count x (u ∷ ss)) (sym e) ∙ h x)))

sorted_equal :
    (ss ts : List String)
    → IsSorted ss
    → IsSorted ts
    → ((x : String) → count x ss ≡ count x ts)
    → ss ≡ ts
sorted_equal [] [] p q h = refl
sorted_equal [] (t ∷ ts) p q h = absurd (no_count t ts (h t))
sorted_equal (s ∷ ss) [] p q h = absurd (no_count s ss (sym (h s)))
sorted_equal (s ∷ ss) (t ∷ ts) p q h =
    equal_lists s t ss ts
      (leb_text-antisym s t (head-Below t s ts ss p.0 (λ x. sym (h x)))
        (head-Below s t ss ts q.0 h))
      h (sorted_equal ss ts p.1 q.1)

-- Two lists of texts have the same sort exactly when every text occurs in both equally often.
pub sort_texts_iff :
    (ss ts : List String)
    → (sort_texts ss ≡ sort_texts ts) ↔ ((x : String) → count x ss ≡ count x ts)
sort_texts_iff ss ts = (
  λ h x. sym (count-sort x ss) ∙ (ap (count x) h ∙ count-sort x ts),
  λ h.
      sorted_equal (sort_texts ss) (sort_texts ts) (sort-IsSorted ss) (sort-IsSorted ts)
        (λ x. count-sort x ss ∙ (h x ∙ sym (count-sort x ts))),
)
