-- ===== src/Base/Lists.antt =====
-- Lists measured and indexed by native numbers, predicates and membership by recursion.
use Prim.Native.Nat.{ℕ, zero, suc, ◌+◌, ◌-◌, min}
use mathlib.Core.Path.{◌≡◌, refl, sym, ap, ◌∙◌, subst}
use mathlib.Core.Logic.{◌⊎◌, inl, inr}
use mathlib.Core.Bool.{Bool, true}
use mathlib.Core.List.{List, [], ◌∷◌, ◌++◌, map}
use native.Mathlib.Omega.{arith}
use docker_backup.Base.Tests.{if◌then◌else◌, Bool-cases}

module _ {ℓ} {A : Type ℓ} where
  abbrev pub length : List A → ℕ
  length [] = 0
  length (x ∷ xs) = suc (length xs)

  abbrev pub take : ℕ → List A → List A
  take zero xs = []
  take (suc n) [] = []
  take (suc n) (x ∷ xs) = x ∷ take n xs

  abbrev pub drop : ℕ → List A → List A
  drop zero xs = xs
  drop (suc n) [] = []
  drop (suc n) (x ∷ xs) = drop n xs

  pub length-append : (xs ys : List A) → length (xs ++ ys) ≡ length xs + length ys
  length-append [] ys = omega arith
  length-append (x ∷ xs) ys = omega (arith, length-append xs ys)

  pub take-append-drop : (n : ℕ) (xs : List A) → take n xs ++ drop n xs ≡ xs
  take-append-drop zero xs = refl
  take-append-drop (suc n) [] = refl
  take-append-drop (suc n) (x ∷ xs) = rw (take-append-drop n xs)

  pub length-take : (n : ℕ) (xs : List A) → length (take n xs) ≡ min n (length xs)
  length-take zero xs = omega arith
  length-take (suc n) [] = omega arith
  length-take (suc n) (x ∷ xs) = omega (arith, length-take n xs)

  pub length-drop : (n : ℕ) (xs : List A) → length (drop n xs) ≡ length xs - n
  length-drop zero xs = omega arith
  length-drop (suc n) [] = omega arith
  length-drop (suc n) (x ∷ xs) = omega (arith, length-drop n xs)

pub List-cases {ℓ} : {A : Type ℓ} (l : List A) → (l ≡ []) ⊎ ((x : A) × (xs : List A) × (l ≡ x ∷ xs))
List-cases [] = inl refl
List-cases (x ∷ xs) = inr (x, xs, refl)

-- The elements that pass a Boolean test, in their order.
unfoldable pub select {ℓ} : {A : Type ℓ} → (A → Bool) → List A → List A
select p [] = []
select p (x ∷ xs) = let rest = select p xs in if p x then x ∷ rest else rest

pub select-cons :
    {A : Type 0} (p : A → Bool) (x : A) (l : List A)
    → p x ≡ true
    → select p (x ∷ l) ≡ x ∷ select p l
unfolding select
select-cons p x l h = rw h refl

-- A predicate on all elements; it computes to a tuple.
abbrev pub All {ℓ κ} : {A : Type ℓ} → (A → Type κ) → List A → Type κ
All P [] = Unit
All P (x ∷ xs) = P x × All P xs

-- Membership that can be matched on.
abbrev pub In : {A : Type 0} → A → List A → Type 0
In a [] = ⊥
In a (x ∷ xs) = (a ≡ x) ⊎ In a xs

module _ {κ} {A : Type 0} (P : A → Type κ) where
  pub All-append : (xs ys : List A) → All P xs → All P ys → All P (xs ++ ys)
  All-append [] ys hx hy = hy
  All-append (x ∷ xs) ys hx hy = (hx.0, All-append xs ys hx.1 hy)

  pub All-append_left : (xs ys : List A) → All P (xs ++ ys) → All P xs
  All-append_left [] ys h = tt
  All-append_left (x ∷ xs) ys h = (h.0, All-append_left xs ys h.1)

  pub All-append_right : (xs ys : List A) → All P (xs ++ ys) → All P ys
  All-append_right [] ys h = h
  All-append_right (x ∷ xs) ys h = All-append_right xs ys h.1

  pub All-of_In : (xs : List A) → ((x : A) → In x xs → P x) → All P xs
  All-of_In [] h = tt
  All-of_In (x ∷ xs) h = (h x (inl refl), All-of_In xs (λ y m. h y (inr m)))

  pub In-All : (x : A) (xs : List A) → All P xs → In x xs → P x
  In-All x [] h m = absurd m
  In-All x (y ∷ ys) h (inl e) = subst P (sym e) h.0
  In-All x (y ∷ ys) h (inr m) = In-All x ys h.1 m

module _ {A : Type 0} (a : A) where
  pub In-append_left : (xs ys : List A) → In a xs → In a (xs ++ ys)
  In-append_left [] ys m = absurd m
  In-append_left (x ∷ xs) ys (inl e) = inl e
  In-append_left (x ∷ xs) ys (inr m) = inr (In-append_left xs ys m)

  pub In-append_right : (xs ys : List A) → In a ys → In a (xs ++ ys)
  In-append_right [] ys m = m
  In-append_right (x ∷ xs) ys m = inr (In-append_right xs ys m)

  pub In-append : (xs ys : List A) → In a (xs ++ ys) → In a xs ⊎ In a ys
  In-append [] ys m = inr m
  In-append (x ∷ xs) ys (inl e) = inl (inl e)
  In-append (x ∷ xs) ys (inr m) = elim (In-append xs ys m) [ inl l ↦ inl (inr l) | inr r ↦ inr r ]

-- What is in a mapped list comes from the list.
pub In-map :
    {A B : Type 0} (f : A → B) (b : B) (l : List A) → In b (map f l) → (a : A) × In a l × (b ≡ f a)
In-map f b [] m = absurd m
In-map f b (x ∷ l) (inl e) = (x, inl refl, e)
In-map f b (x ∷ l) (inr m) = let (a, i, e) = In-map f b l m in (a, inr i, e)

pub either {ℓ κ ι} : {A : Type ℓ} {B : Type κ} {C : Type ι} → (A → C) → (B → C) → A ⊎ B → C
either f g (inl a) = f a
either f g (inr b) = g b

-- What a selected element satisfies, and which elements are selected.
module _ {A : Type 0} (p : A → Bool) (a : A) where
  pub In-select : (xs : List A) → In a (select p xs) → In a xs × (p a ≡ true)
  unfolding select
  In-select [] m = absurd m
  In-select (x ∷ xs) m = elim (Bool-cases (p x)) [
    | inl t ↦
        either (λ e. (inl e, ap p e ∙ t)) (λ n. let r = In-select xs n in (inr r.0, r.1))
          (rw (t, select) at m)
    | inr f ↦ let r = In-select xs (rw (f, select) at m) in (inr r.0, r.1)
  ]

  pub select-In : (xs : List A) → In a xs → p a ≡ true → In a (select p xs)
  unfolding select
  select-In [] m t = absurd m
  select-In (x ∷ xs) (inl e) t = rw (sym (ap p e) ∙ t, select) (inl e)
  select-In (x ∷ xs) (inr m) t = elim (Bool-cases (p x)) [
    | inl q ↦ rw (q, select) (inr (select-In xs m t))
    | inr q ↦ rw (q, select) (select-In xs m t)
  ]
