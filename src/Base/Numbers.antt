-- ===== src/Base/Numbers.antt =====
-- strconv.Atoi and strconv.ParseBool, and signed integers as far as the program needs them.
use Prim.Native.Nat.{ℕ, zero, suc, ◌+◌, ◌-◌, ◌*◌, ◌^◌}
use mathlib.Core.Bool.{Bool, true, false, ◌&&◌, ◌||◌}
use mathlib.Core.Option.{Option, none, some}
use mathlib.Core.List.{List, [], ◌∷◌}
use docker_backup.Base.Tests.{ltb, leb, nat_eq, if◌then◌else◌}
use docker_backup.Base.Strings.{Text, codes, ◌==◌}
use docker_backup.Base.Results.{Error, errorf, Result, ok, err}

-- `negsuc n` is -(n + 1).
pub data ℤ : Type 0 where
  pos : ℕ → ℤ
  negsuc : ℕ → ℤ

abbrev negate : ℕ → ℤ
negate zero = pos zero
negate (suc n) = negsuc n

-- The value of a string of decimal digits, onto a value read before it.
unfoldable pub digits : ℕ → Text → Option ℕ
digits n [] = some n
digits n (c ∷ s) =
    let rest = digits (n * 10 + (c - 48)) s in if leb 48 c && leb c 57 then rest else none

unfoldable pub magnitude : Text → Option ℕ
unfolding digits
magnitude [] = none
magnitude (c ∷ s) = digits 0 (c ∷ s)

abbrev pub syntax_error : Text → Error
syntax_error s = errorf "strconv.Atoi: parsing %q: invalid syntax" (s ∷ [])

abbrev pub range_error : Text → Error
range_error s = errorf "strconv.Atoi: parsing %q: value out of range" (s ∷ [])

-- An `int` has 64 bits.
signed : Text → Bool → Option ℕ → Result ℤ
signed s minus none = err (syntax_error s)
signed s true (some n) = if leb n (2 ^ 63) then ok (negate n) else err (range_error s)
signed s false (some n) = if ltb n (2 ^ 63) then ok (pos n) else err (range_error s)

-- strconv.Atoi
unfoldable pub atoi : Text → Result ℤ
unfolding signed magnitude
atoi [] = err (syntax_error [])
atoi (c ∷ s) =
    if nat_eq c 45
    then signed (c ∷ s) true (magnitude s)
    else if nat_eq c 43
    then signed (c ∷ s) false (magnitude s)
    else signed (c ∷ s) false (magnitude (c ∷ s))

one_of : List Text → Text → Bool
one_of [] s = false
one_of (t ∷ ts) s = s == t || one_of ts s

abbrev true_words : List Text
true_words = codes "1" ∷ codes "t" ∷ codes "T" ∷ codes "true" ∷ codes "TRUE" ∷ codes "True" ∷ []

abbrev false_words : List Text
false_words = codes "0" ∷ codes "f" ∷ codes "F" ∷ codes "false" ∷ codes "FALSE" ∷ codes "False" ∷ []

-- strconv.ParseBool
unfoldable pub parse_bool : Text → Result Bool
unfolding one_of
parse_bool s =
    if one_of true_words s
    then ok true
    else if one_of false_words s
    then ok false
    else err (errorf "strconv.ParseBool: parsing %q: invalid syntax" (s ∷ []))
