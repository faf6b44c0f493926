-- ===== src/Notification/Sizes.antt =====
-- formatSize of internal/notification/registry.go; internal/dashboard/server.go and
-- cmd/docker-backup/helpers.go have the same function. Its loop runs on fuel.
use Prim.Native.Nat.{ℕ, zero, suc, ◌+◌, ◌*◌, ◌/◌, ◌^◌, ◌≤◌, ◌<◌, ◌%◌}
use native.Mathlib.Nat.{le_trans, lt_of_lt_of_le, mul-le-mul_left, div-add-mod, mod-lt, pow-succ'}
use docker_backup.Base.{
  Option, none, some, ◌≡◌, arith, ltb, leb, ltb→lt, leb→le, inl, inr, if◌then◌else◌, Bool-cases,
  ◌⊎◌, [], ◌∷◌, ap, ◌∙◌, refl, subst, Text, codes, false,
}

-- for n := bytes / unit; n >= unit; n /= unit { div *= unit; exp++ }
unfoldable pub size_loop : ℕ → ℕ → ℕ → ℕ → Option (ℕ × ℕ)
size_loop zero n div exp = none
size_loop (suc fuel) n div exp =
    let more = size_loop fuel (n / 1024) (div * 1024) (exp + 1) in
    if leb 1024 n then more else some (div, exp)

-- A quotient rounded to the nearest whole number, and to the even one of two.
unfoldable pub round_even : ℕ → ℕ → ℕ
round_even n d =
    if ltb (2 * (n % d)) d
    then n / d
    else if ltb d (2 * (n % d))
    then n / d + 1
    else (n / d + n / d % 2)

-- The distance of two float64 numbers at n: n has 53 binary digits in front of it.
unfoldable float_unit : ℕ → ℕ → ℕ
float_unit zero n = 1
float_unit (suc fuel) n =
    let more = 2 * float_unit fuel (n / 2) in if ltb n (2 ^ 53) then 1 else more

-- float64(bytes), for an int64 that is not negative
unfoldable pub float64 : ℕ → ℕ
unfolding round_even float_unit
float64 n = round_even n (float_unit 10 n) * float_unit 10 n

unfoldable pub get_elem? : Text → ℕ → Option ℕ
get_elem? [] i = none
get_elem? (c ∷ cs) zero = some c
get_elem? (c ∷ cs) (suc i) = get_elem? cs i

-- What is printed: a number of bytes, or tenths of the unit with this letter. The index of the
-- letter may be out of range.
pub data Size : Type 0 where
  plain : ℕ → Size
  scaled : ℕ → ℕ → Size
  out_of_range : Size
  stuck : Size

-- fmt.Sprintf("%.1f %cB", float64(bytes)/float64(div), "KMGTPE"[exp]): the quotient is exact, since
-- div is a power of two, and it is rounded to tenths.
abbrev as_size : ℕ → Option (ℕ × ℕ) → Size
as_size bytes none = stuck
as_size bytes (some (div, exp)) = elim (get_elem? (codes "KMGTPE") exp) [
  | none ↦ out_of_range
  | some letter ↦ scaled (round_even (10 * float64 bytes) div) letter
]

unfoldable pub format_size : ℕ → Size
unfolding size_loop
format_size bytes =
    if ltb bytes 1024 then plain bytes else as_size bytes (size_loop 6 (bytes / 1024) 1024 0)

-- What `fuel` rounds can bring below 1024.
abbrev limit : ℕ → ℕ
limit zero = 1024
limit (suc f) = 1024 * limit f

below_unit : (d n b : ℕ) → 1 ≤ n → n < 1024 → d * n ≤ b → b < d * (n + 1) → (d ≤ b) × (b < d * 1024)
below_unit d n b p h l u = grind arith

next_unit :
    (d n b : ℕ)
    → d * n ≤ b
    → b < d * (n + 1)
    → (d * 1024 * (n / 1024) ≤ b) × (b < d * 1024 * (n / 1024 + 1))
next_unit d n b l u = (
  le_trans (omega (arith, mul-le-mul_left {m = n / 1024 * 1024} {n = n} d (omega arith))) l,
  lt_of_lt_of_le u
      (omega (arith, mul-le-mul_left {m = n + 1} {n = (n / 1024 + 1) * 1024} d (omega arith))),
)

next_power : (e : ℕ) → 1024 ^ (e + 1) * 1024 ≡ 1024 ^ (e + 1 + 1)
next_power e =
    let plus : suc (e + 1) ≡ e + 1 + 1 = omega arith in
    omega (arith, pow-succ' 1024 (e + 1), ap (λ k. 1024 ^ k) plus)

size_loop_lem :
    (f n d e b : ℕ)
    → d ≡ 1024 ^ (e + 1)
    → 1 ≤ n
    → n < limit f
    → d * n ≤ b
    → b < d * (n + 1)
    → (exp : ℕ) × (size_loop (suc f) n d e ≡ some (1024 ^ (exp + 1), exp))
      × (exp ≤ e + f)
      × (1024 ^ (exp + 1) ≤ b)
      × (b < 1024 ^ (exp + 1) * 1024)
unfolding size_loop
size_loop_lem zero n d e b w p h l u =
    let (under, over) = below_unit d n b p h l u in
    let stop : leb 1024 n ≡ false = ground arith in
    (
      e,
      rw stop (ap (λ x. some (x, e)) w),
      omega arith,
      subst (λ x. x ≤ b) w under,
      subst (λ x. b < x * 1024) w over,
    )
size_loop_lem (suc f) n d e b w p h l u = elim (Bool-cases (leb 1024 n)) [
  | inl t ↦
      let big : 1024 ≤ n = leb→le 1024 n t in
      let (exp, run, r, l', u') =
        size_loop_lem f (n / 1024) (d * 1024) (e + 1) b (ap (λ x. x * 1024) w ∙ next_power e)
          (omega arith) (omega arith) (next_unit d n b l u).0 (next_unit d n b l u).1 in
      (exp, rw (t, size_loop) run, omega arith, l', u')
  | inr s ↦
      let small : n < 1024 = ground arith in
      let (under, over) = below_unit d n b p small l u in
      (
        e,
        rw s (ap (λ x. some (x, e)) w),
        omega arith,
        subst (λ x. x ≤ b) w under,
        subst (λ x. b < x * 1024) w over,
      )
]

-- The rounded quotient lies within half a unit of the quotient.
abbrev pub Nearest : ℕ → ℕ → ℕ → Type 0
Nearest n d q = (2 * (q * d) ≤ 2 * n + d) × (2 * n ≤ 2 * (q * d) + d)

near : (n d q r : ℕ) → d * q + r ≡ n → 2 * r ≤ d → Nearest n d q
near n d q r e h = (grind arith, grind arith)

near_next : (n d q r : ℕ) → d * q + r ≡ n → r < d → d ≤ 2 * r → Nearest n d (q + 1)
near_next n d q r e k h = (grind arith, grind arith)

near_tie : (n d q r b : ℕ) → d * q + r ≡ n → 2 * r ≡ d → b < 2 → Nearest n d (q + b)
near_tie n d q r zero e h l = (grind arith, grind arith)
near_tie n d q r (suc zero) e h l = (grind arith, grind arith)
near_tie n d q r (suc (suc b)) e h l = absurd (omega arith)

round_even-Nearest : (n d : ℕ) → 0 < d → Nearest n d (round_even n d)
unfolding round_even
round_even-Nearest n d p =
    let whole = div-add-mod n d in
    let rest = mod-lt n p in
    elim (Bool-cases (ltb (2 * (n % d)) d)) [
      | inl t ↦ rw t (near n d (n / d) (n % d) whole (omega (arith, ltb→lt _ _ t)))
      | inr f ↦ elim (Bool-cases (ltb d (2 * (n % d)))) [
        | inl t ↦ rw (f, t) (near_next n d (n / d) (n % d) whole rest (omega (arith, ltb→lt _ _ t)))
        | inr g ↦
            let half : 2 * (n % d) ≡ d = ground (arith, f, g) in
            rw (f, g)
              (near_tie n d (n / d) (n % d) (n / d % 2) whole half (mod-lt (n / d) (omega arith)))
      ]
    ]

letter_found : (exp : ℕ) → exp ≤ 5 → (letter : ℕ) × (get_elem? (codes "KMGTPE") exp ≡ some letter)
unfolding get_elem? codes
letter_found zero h = (_, refl)
letter_found (suc zero) h = (_, refl)
letter_found (suc (suc zero)) h = (_, refl)
letter_found (suc (suc (suc zero))) h = (_, refl)
letter_found (suc (suc (suc (suc zero)))) h = (_, refl)
letter_found (suc (suc (suc (suc (suc zero))))) h = (_, refl)
letter_found (suc (suc (suc (suc (suc (suc n)))))) h = absurd (omega arith)

as_size-letter :
    (bytes div exp letter : ℕ)
    → get_elem? (codes "KMGTPE") exp ≡ some letter
    → as_size bytes (some (div, exp)) ≡ scaled (round_even (10 * float64 bytes) div) letter
as_size-letter bytes div exp letter e =
    ap
      (λ o. elim o [
        | none ↦ out_of_range
        | some c ↦ scaled (round_even (10 * float64 bytes) div) c
      ])
      e

-- For every size that an int64 holds the loop of formatSize ends. A size below 1024 is printed as
-- it is; any other is printed with the letter of "KMGTPE" at an index in range, which is that of
-- the largest power of 1024 that is not above the size, in tenths of this power that are within
-- half a tenth of the size as a float64.
pub format_size_lem :
    (bytes : ℕ)
    → bytes < 2 ^ 63
    → ((bytes < 1024) × (format_size bytes ≡ plain bytes))
      ⊎ ((exp letter tenths : ℕ) × (exp ≤ 5)
          × (get_elem? (codes "KMGTPE") exp ≡ some letter)
          × (1024 ^ (exp + 1) ≤ bytes)
          × (bytes < 1024 ^ (exp + 1) * 1024)
          × (format_size bytes ≡ scaled tenths letter)
          × Nearest (10 * float64 bytes) (1024 ^ (exp + 1)) tenths)
unfolding format_size
format_size_lem bytes h = elim (Bool-cases (ltb bytes 1024)) [
  | inl t ↦ inl (ltb→lt bytes 1024 t, rw t)
  | inr f ↦
      let (exp, run, r, l', u') =
        size_loop_lem 5 (bytes / 1024) 1024 0 bytes refl (ground arith) (omega arith) (omega arith)
          (omega arith) in
      let (letter, named) = letter_found exp (omega arith) in
      inr (
        exp,
        letter,
        round_even (10 * float64 bytes) (1024 ^ (exp + 1)),
        omega arith,
        named,
        l',
        u',
        rw (f, run) (as_size-letter bytes _ exp letter named),
        round_even-Nearest (10 * float64 bytes) (1024 ^ (exp + 1)) (omega (arith, u')),
      )
]
