-- ===== src/Base/Strings/Laws.antt =====
-- Laws of the text functions.
use Prim.Native.Nat.{ℕ}
use mathlib.Core.Path.{◌≡◌, refl}
use mathlib.Core.Logic.{◌↔◌}
use mathlib.Core.Bool.{true, false}
use mathlib.Core.Option.{some}
use mathlib.Core.List.{[], ◌∷◌, ◌++◌}
use native.Mathlib.Omega.{arith}
use docker_backup.Base.Strings.{
  Text, ◌==◌, has_prefix, after_prefix, trim_prefix, cut, split, contains,
}

pub ==_refl : (s : Text) → (s == s) ≡ true
unfolding ◌==◌
==_refl [] = refl
==_refl (x ∷ s) = ground (arith, ==_refl s)

pub ==→eq : (s t : Text) → (s == t) ≡ true → s ≡ t
unfolding ◌==◌
==→eq [] [] h = refl
==→eq [] (y ∷ t) h = cc
==→eq (x ∷ s) [] h = cc
==→eq (x ∷ s) (y ∷ t) h = ground (arith, ==→eq s t)

pub ==_iff : (s t : Text) → ((s == t) ≡ true) ↔ (s ≡ t)
==_iff s t = (==→eq s t, λ e. rw e (==_refl t))

-- A text with a prefix in front of it.
pub has_prefix-append : (p s : Text) → has_prefix (p ++ s) p ≡ true
unfolding has_prefix
has_prefix-append [] [] = refl
has_prefix-append [] (x ∷ s) = refl
has_prefix-append (x ∷ p) s = ground (arith, has_prefix-append p s)

pub after_prefix-append : (p s : Text) → after_prefix (p ++ s) p ≡ s
unfolding after_prefix
after_prefix-append [] [] = refl
after_prefix-append [] (x ∷ s) = refl
after_prefix-append (x ∷ p) s = after_prefix-append p s

pub trim_prefix-append : (p s : Text) → trim_prefix (p ++ s) p ≡ s
unfolding trim_prefix
trim_prefix-append p s = rw (has_prefix-append p s) (after_prefix-append p s)

pub has_prefix-split : (s p : Text) → has_prefix s p ≡ true → s ≡ p ++ trim_prefix s p
unfolding has_prefix trim_prefix after_prefix
has_prefix-split [] [] h = refl
has_prefix-split (x ∷ s) [] h = refl
has_prefix-split [] (c ∷ p) h = cc
has_prefix-split (x ∷ s) (c ∷ p) h = ground (arith, has_prefix-split s p)

-- The first separator cuts a text in two.
pub cut-append : (c : ℕ) (n p : Text) → contains c n ≡ false → cut c (n ++ c ∷ p) ≡ some (n, p)
unfolding cut contains
cut-append c [] p h = ground arith
cut-append c (x ∷ n) p h = ground (arith, cut-append c n p)

pub cut_sound :
    (c : ℕ) (s n p : Text) → cut c s ≡ some (n, p) → (s ≡ n ++ c ∷ p) × (contains c n ≡ false)
unfolding cut contains
cut_sound c [] n p h = cc
cut_sound c (x ∷ s) [] p h = ground arith
cut_sound c (x ∷ s) (y ∷ n) p h = ground (arith, cut_sound c s n p)

pub split-of_free : (c : ℕ) (s : Text) → contains c s ≡ false → split c s ≡ s ∷ []
unfolding split contains
split-of_free c [] h = refl
split-of_free c (x ∷ s) h = ground (arith, split-of_free c s)

pub split-append :
    (c : ℕ) (s t : Text) → contains c s ≡ false → split c (s ++ c ∷ t) ≡ s ∷ split c t
unfolding split contains
split-append c [] t h = ground arith
split-append c (x ∷ s) t h = ground (arith, split-append c s t)
