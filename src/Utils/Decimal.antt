-- ===== src/Utils/Decimal.antt =====
-- strconv.Itoa and strconv.Atoi, for a 64-bit int.
use Prim.Native.Char.{Char, code}
use Prim.Native.Nat.{◌/◌}
use Prim.Native.String.{◌++◌}
use backup_restore_openstack.Prelude.{
  ℕ, zero, suc, ◌+◌, ◌*◌, ◌-◌, ◌%◌, ◌^◌, ◌≡◌, refl, String, Bool, Option, none, some, ◌&&◌, ltb,
  leb, nat_eq, if◌then◌else◌,
}
use backup_restore_openstack.Prelude.Int.{ℤ, pos, negsuc}

abbrev digit : ℕ → String
digit zero = "0"
digit (suc zero) = "1"
digit (suc (suc zero)) = "2"
digit (suc (suc (suc zero))) = "3"
digit (suc (suc (suc (suc zero)))) = "4"
digit (suc (suc (suc (suc (suc zero))))) = "5"
digit (suc (suc (suc (suc (suc (suc zero)))))) = "6"
digit (suc (suc (suc (suc (suc (suc (suc zero))))))) = "7"
digit (suc (suc (suc (suc (suc (suc (suc (suc zero)))))))) = "8"
digit _ = "9"

-- the digits of a number below 10 ^ fuel, in front of a text
unfoldable pub digits : ℕ → ℕ → String → String
digits zero n tail = tail
digits (suc f) n tail =
    let more = digits f (n / 10) (digit (n % 10) ++ tail) in
    if ltb n 10 then digit n ++ tail else more

-- an int has at most 19 digits
unfoldable pub itoa : ℤ → String
unfolding digits
itoa (pos n) = digits 20 n ""
itoa (negsuc n) = "-" ++ digits 20 (n + 1) ""

abbrev is_digit : Char → Bool
is_digit c = leb 48 (code c) && leb (code c) 57

-- the value of a text of digits, behind a value read so far
unfoldable pub read_digits : ℕ → String → Option ℕ
read_digits acc String.[] = some acc
read_digits acc (String.◌∷◌ c s) =
    let rest = read_digits (acc * 10 + (code c - 48)) s in if is_digit c then rest else none

abbrev non_empty : String → Option String
non_empty String.[] = none
non_empty (String.◌∷◌ c s) = some (String.◌∷◌ c s)

abbrev magnitude : Option String → Option ℕ
magnitude none = none
magnitude (some s) = read_digits 0 s

abbrev positive : Option ℕ → Option ℤ
positive none = none
positive (some n) = if ltb n (2 ^ 63) then some (pos n) else none

abbrev negative : Option ℕ → Option ℤ
negative none = none
negative (some zero) = some (pos 0)
negative (some (suc n)) = if ltb n (2 ^ 63) then some (negsuc n) else none

-- `none` is Atoi's error: no digits, another character, or a number out of range
unfoldable pub atoi : String → Option ℤ
unfolding read_digits
atoi String.[] = none
atoi (String.◌∷◌ c s) =
    if nat_eq (code c) b'-'
    then negative (magnitude (non_empty s))
    else if nat_eq (code c) b'+'
    then positive (magnitude (non_empty s))
    else positive (read_digits 0 (String.◌∷◌ c s))

decimal_tests :
    (itoa (pos 120) ≡ "120")
    × (itoa (negsuc 11) ≡ "-12")
    × (atoi "120" ≡ some (pos 120))
    × (atoi "-12" ≡ some (negsuc 11))
    × (atoi "+5" ≡ some (pos 5))
    × (atoi "" ≡ none)
    × (atoi "1x" ≡ none)
    × (atoi "9223372036854775808" ≡ none)
unfolding itoa atoi
decimal_tests = (refl, refl, refl, refl, refl, refl, refl, refl)
