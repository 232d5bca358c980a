-- ===== src/Utils/Sort.antt =====
-- sort.Strings, on texts compared by the numbers of their characters, and sort.Slice on durations.
use Prim.Native.Char.{code}
use backup_restore_openstack.Prelude.{
  String, Bool, true, false, ◌&&◌, ◌||◌, List, [], ◌∷◌, ltb, nat_eq, if◌then◌else◌,
}
use backup_restore_openstack.Prelude.Int.{ℤ, leb_ℤ}

unfoldable pub leb_text : String → String → Bool
leb_text String.[] t = true
leb_text (String.◌∷◌ c s) String.[] = false
leb_text (String.◌∷◌ c s) (String.◌∷◌ d t) =
    let tails = leb_text s t in ltb (code c) (code d) || (nat_eq (code c) (code d) && tails)

unfoldable pub insert_text : String → List String → List String
insert_text s [] = s ∷ []
insert_text s (t ∷ ts) =
    let more = insert_text s ts in if leb_text s t then s ∷ t ∷ ts else t ∷ more

unfoldable pub sort_texts : List String → List String
unfolding insert_text leb_text
sort_texts [] = []
sort_texts (s ∷ ss) = insert_text s (sort_texts ss)

unfoldable pub insert_duration : ℤ → List ℤ → List ℤ
insert_duration d [] = d ∷ []
insert_duration d (e ∷ es) =
    let more = insert_duration d es in if leb_ℤ d e then d ∷ e ∷ es else e ∷ more

unfoldable pub sort_durations : List ℤ → List ℤ
unfolding insert_duration
sort_durations [] = []
sort_durations (d ∷ ds) = insert_duration d (sort_durations ds)
