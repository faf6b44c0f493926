-- ===== src/Base/Strings.antt =====
-- Go's strings as lists of Unicode code points (valid UTF-8), and the functions of the packages
-- `strings` and `strconv` that the program calls. `to_lower` is exact on ASCII text.
pub mod Laws
use Prim.Native.Nat.{ℕ, ◌+◌, ◌-◌, ◌*◌}
use Prim.Native.Char.{code}
use Prim.Native.String.{String}
use mathlib.Core.Bool.{Bool, true, false, ◌&&◌, ◌||◌}
use mathlib.Core.Option.{Option, none, some}
use mathlib.Core.List.{List, [], ◌∷◌, ◌++◌, map, reverse}
use docker_backup.Base.Tests.{ltb, leb, nat_eq, if◌then◌else◌}

abbrev pub Text : Type 0
Text = List ℕ

unfoldable pub codes : String → Text
codes String.[] = []
codes (String.◌∷◌ c s) = code c ∷ codes s

infix 50 ◌==◌
unfoldable pub ◌==◌ : Text → Text → Bool
[] == [] = true
(x ∷ s) == (y ∷ t) = nat_eq x y && (s == t)
_ == _ = false

-- s < t, by code points, which is the order of the UTF-8 bytes.
unfoldable pub text_lt : Text → Text → Bool
text_lt [] [] = false
text_lt [] (y ∷ t) = true
text_lt (x ∷ s) [] = false
text_lt (x ∷ s) (y ∷ t) = ltb x y || (nat_eq x y && text_lt s t)

-- strings.HasPrefix(s, prefix)
unfoldable pub has_prefix : Text → Text → Bool
has_prefix s [] = true
has_prefix [] (p ∷ ps) = false
has_prefix (x ∷ s) (p ∷ ps) = nat_eq x p && has_prefix s ps

-- s[len(prefix):]
unfoldable pub after_prefix : Text → Text → Text
after_prefix s [] = s
after_prefix [] (p ∷ ps) = []
after_prefix (x ∷ s) (p ∷ ps) = after_prefix s ps

-- strings.TrimPrefix(s, prefix)
unfoldable pub trim_prefix : Text → Text → Text
trim_prefix s prefix = if has_prefix s prefix then after_prefix s prefix else s

-- strings.HasSuffix(s, suffix)
unfoldable pub has_suffix : Text → Text → Bool
unfolding has_prefix
has_suffix s suffix = has_prefix (reverse s) (reverse suffix)

-- unicode.IsSpace
unfoldable pub is_space : ℕ → Bool
is_space c =
    (leb 9 c && leb c 13)
    || (nat_eq c 32
        || (nat_eq c 0x85
            || (nat_eq c 0xa0
                || (nat_eq c 0x1680
                    || ((leb 0x2000 c && leb c 0x200a)
                        || (nat_eq c 0x2028
                            || (nat_eq c 0x2029
                                || (nat_eq c 0x202f || (nat_eq c 0x205f || nat_eq c 0x3000)))))))))

unfoldable pub trim_left : Text → Text
trim_left [] = []
trim_left (c ∷ s) = let rest = trim_left s in if is_space c then rest else c ∷ s

-- strings.TrimSpace
unfoldable pub trim_space : Text → Text
unfolding trim_left is_space
trim_space s = reverse (trim_left (reverse (trim_left s)))

-- strings.SplitN(s, sep, 2) for a separator of one character: `none` stands for a result of one
-- part.
unfoldable pub cut : ℕ → Text → Option (Text × Text)
cut c [] = none
cut c (x ∷ s) =
    let rest = cut c s in
    if nat_eq x c then some ([], s) else elim rest [ none ↦ none | some (a, b) ↦ some (x ∷ a, b) ]

-- The parts of a text that is not split further, and one character in front of the first part.
abbrev pub onto_head : ℕ → List Text → List Text
onto_head x [] = (x ∷ []) ∷ []
onto_head x (p ∷ ps) = (x ∷ p) ∷ ps

-- strings.Split(s, sep) for a separator of one character
unfoldable pub split : ℕ → Text → List Text
split c [] = [] ∷ []
split c (x ∷ s) = let rest = split c s in if nat_eq x c then [] ∷ rest else onto_head x rest

-- strings.Contains(s, sep) for one character
unfoldable pub contains : ℕ → Text → Bool
contains c [] = false
contains c (x ∷ s) = nat_eq x c || contains c s

-- strings.ToLower
unfoldable pub to_lower : Text → Text
to_lower = map λ c. if leb 65 c && leb c 90 then c + 32 else c

-- strings.ReplaceAll(s, old, new) for single characters
unfoldable pub replace_all : ℕ → ℕ → Text → Text
replace_all old new = map λ c. if nat_eq c old then new else c

abbrev pub dot : ℕ
dot = 46

abbrev pub slash : ℕ
slash = 47

abbrev pub colon : ℕ
colon = 58

abbrev pub comma : ℕ
comma = 44

abbrev pub underscore : ℕ
underscore = 95

abbrev pub hyphen : ℕ
hyphen = 45

abbrev pub equals : ℕ
equals = 61

abbrev pub newline : ℕ
newline = 10

abbrev pub at_sign : ℕ
at_sign = 64
