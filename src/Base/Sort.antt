-- ===== src/Base/Sort.antt =====
-- sort.Slice(l, less): some permutation of the list in which no element comes before one that is
-- less. Go does not say how it orders elements of which neither is less, so the sort is a
-- parameter of the code that calls it; insertion sort is one that can stand for it.
use Prim.Native.Nat.{ℕ, zero, suc}
use mathlib.Core.Path.{◌≡◌, refl, sym, ap, ◌∙◌, subst}
use mathlib.Core.Logic.{inl, inr}
use mathlib.Core.Bool.{Bool, true, false}
use mathlib.Core.List.{List, [], ◌∷◌, map}
use docker_backup.Base.Tests.{if◌then◌else◌, Bool-cases}
use docker_backup.Base.Lists.{length, take, drop, select, All, In, In-All, All-of_In}

pub data Permutes {A : Type 0} : List A → List A → Type 0 where
  nil : Permutes [] []
  skip : (x : A) {l m : List A} → Permutes l m → Permutes (x ∷ l) (x ∷ m)
  swap : (x y : A) (l : List A) → Permutes (x ∷ y ∷ l) (y ∷ x ∷ l)
  trans : {l m n : List A} → Permutes l m → Permutes m n → Permutes l n

module _ {A : Type 0} where
  pub Permutes-refl : (l : List A) → Permutes l l
  Permutes-refl [] = nil
  Permutes-refl (x ∷ l) = skip x (Permutes-refl l)

  pub Permutes-sym : {l m : List A} → Permutes l m → Permutes m l
  Permutes-sym nil = nil
  Permutes-sym (skip x p) = skip x (Permutes-sym p)
  Permutes-sym (swap x y l) = swap y x l
  Permutes-sym (trans p q) = trans (Permutes-sym q) (Permutes-sym p)

  pub Permutes-In : {l m : List A} (a : A) → Permutes l m → In a l → In a m
  Permutes-In a nil h = h
  Permutes-In a (skip x p) (inl e) = inl e
  Permutes-In a (skip x p) (inr h) = inr (Permutes-In a p h)
  Permutes-In a (swap x y l) (inl e) = inr (inl e)
  Permutes-In a (swap x y l) (inr (inl e)) = inl e
  Permutes-In a (swap x y l) (inr (inr h)) = inr (inr h)
  Permutes-In a (trans p q) h = Permutes-In a q (Permutes-In a p h)

  pub Permutes-length : {l m : List A} → Permutes l m → length l ≡ length m
  Permutes-length nil = refl
  Permutes-length (skip x p) = ap suc (Permutes-length p)
  Permutes-length (swap x y l) = refl
  Permutes-length (trans p q) = Permutes-length p ∙ Permutes-length q

pub Permutes-map :
    {A B : Type 0} (f : A → B) {l m : List A} → Permutes l m → Permutes (map f l) (map f m)
Permutes-map f nil = nil
Permutes-map f (skip x p) = skip (f x) (Permutes-map f p)
Permutes-map f (swap x y l) = swap (f x) (f y) (map f l)
Permutes-map f (trans p q) = trans (Permutes-map f p) (Permutes-map f q)

pub Permutes-select :
    {A : Type 0} (p : A → Bool) {l m : List A} → Permutes l m → Permutes (select p l) (select p m)
unfolding select
Permutes-select p nil = nil
Permutes-select p (skip x {l} {m} h) =
    elim (p x)
      as (λ (b : Bool).
        Permutes (if b then x ∷ select p l else select p l)
          (if b then x ∷ select p m else select p m)) [
            | true ↦ skip x (Permutes-select p h)
            | false ↦ Permutes-select p h
          ]
Permutes-select {A} p (swap x y l) = elim (Bool-cases (p x)) [
  | inl t ↦ elim (Bool-cases (p y)) [
    | inl u ↦ rw (t, u) (swap x y (select p l))
    | inr u ↦ rw (t, u) (Permutes-refl _)
  ]
  | inr t ↦ rw t (Permutes-refl _)
]
Permutes-select p (trans h k) = trans (Permutes-select p h) (Permutes-select p k)

pub In-drop : {A : Type 0} (b : A) (m : ℕ) (l : List A) → In b (drop m l) → In b l
In-drop b zero l h = h
In-drop b (suc m) [] h = h
In-drop b (suc m) (y ∷ l) h = inr (In-drop b m l h)

module _ {A : Type 0} (P : A → Type 0) where
  pub All-Permutes : {l m : List A} → Permutes l m → All P l → All P m
  All-Permutes {l} {m} p h = All-of_In P m λ a i. In-All P a l h (Permutes-In a (Permutes-sym p) i)

-- A relation between each element and those behind it.
abbrev pub Pairwise : {A : Type 0} → (A → A → Type 0) → List A → Type 0
Pairwise R [] = Unit
Pairwise R (x ∷ l) = All (R x) l × Pairwise R l

pub Pairwise-Permutes :
    {A : Type 0} (R : A → A → Type 0)
    → ((a b : A) → R a b → R b a)
    → {l m : List A} → Permutes l m
    → Pairwise R l
    → Pairwise R m
Pairwise-Permutes R s nil d = d
Pairwise-Permutes R s (skip x p) d = (All-Permutes (R x) p d.0, Pairwise-Permutes R s p d.1)
Pairwise-Permutes R s (swap x y l) d = ((s x y d.0.0, d.1.0), (d.0.1, d.1.1))
Pairwise-Permutes R s (trans p q) d = Pairwise-Permutes R s q (Pairwise-Permutes R s p d)

-- Elements on the two sides of a cut stand in the relation.
pub Pairwise-cut :
    {A : Type 0} (R : A → A → Type 0) (n : ℕ) (l : List A)
    → Pairwise R l
    → (a b : A) → In a (take n l)
    → In b (drop n l)
    → R a b
Pairwise-cut R zero l s a b h k = absurd h
Pairwise-cut R (suc n) [] s a b h k = absurd h
Pairwise-cut R (suc n) (x ∷ l) s a b (inl e) k =
    subst (λ z. R z b) (sym e) (In-All (R x) b l s.0 (In-drop b n l k))
Pairwise-cut R (suc n) (x ∷ l) s a b (inr h) k = Pairwise-cut R n l s.1 a b h k

-- No element is less than one that stands before it.
abbrev pub IsSorted : {A : Type 0} → (A → A → Bool) → List A → Type 0
IsSorted less = Pairwise λ x y. less y x ≡ false

module _ {A : Type 0} (less : A → A → Bool) where
  -- What sort.Slice promises of the order `less`.
  pub record Sorter : Type 0 where
    pub sort : List A → List A
    pub permutes : (l : List A) → Permutes (sort l) l
    pub sorted : (l : List A) → IsSorted less (sort l)

  unfoldable pub insert : A → List A → List A
  insert x [] = x ∷ []
  insert x (y ∷ l) = let rest = insert x l in if less y x then y ∷ rest else x ∷ y ∷ l

  unfoldable pub insertion_sort : List A → List A
  unfolding insert
  insertion_sort [] = []
  insertion_sort (x ∷ l) = insert x (insertion_sort l)

  insert-Permutes : (x : A) (l : List A) → Permutes (insert x l) (x ∷ l)
  unfolding insert
  insert-Permutes x [] = skip x nil
  insert-Permutes x (y ∷ l) = elim (Bool-cases (less y x)) [
    | inl t ↦ rw (t, insert) (trans (skip y (insert-Permutes x l)) (swap y x l))
    | inr f ↦ rw (f, insert) (Permutes-refl _)
  ]

  pub insertion_sort-Permutes : (l : List A) → Permutes (insertion_sort l) l
  unfolding insertion_sort
  insertion_sort-Permutes [] = nil
  insertion_sort-Permutes (x ∷ l) =
      trans (insert-Permutes x (insertion_sort l)) (skip x (insertion_sort-Permutes l))

  -- The order is strict and its complement is transitive, as sort.Slice requires.
  module _ (asym : (a b : A) → less a b ≡ true → less b a ≡ false)
      (trans_ge : (a b c : A) → less a b ≡ false → less b c ≡ false → less a c ≡ false) where
    insert-All : (P : A → Type 0) (x : A) (l : List A) → P x → All P l → All P (insert x l)
    insert-All P x l px pl =
        All-of_In P (insert x l) λ y m. member y (Permutes-In y (insert-Permutes x l) m)
      where
        member : (y : A) → In y (x ∷ l) → P y
        member y (inl e) = subst P (sym e) px
        member y (inr m) = In-All P y l pl m

    insert-IsSorted : (x : A) (l : List A) → IsSorted less l → IsSorted less (insert x l)
    unfolding insert
    insert-IsSorted x [] s = (tt, tt)
    insert-IsSorted x (y ∷ l) s = elim (Bool-cases (less y x)) [
      | inl t ↦ rw (t, insert) (insert-All _ x l (asym y x t) s.0, insert-IsSorted x l s.1)
      | inr f ↦ rw (f, insert) ((f, All-of_In _ l λ z m. trans_ge z y x (In-All _ z l s.0 m) f), s)
    ]

    pub insertion_sort-IsSorted : (l : List A) → IsSorted less (insertion_sort l)
    unfolding insertion_sort
    insertion_sort-IsSorted [] = tt
    insertion_sort-IsSorted (x ∷ l) =
        insert-IsSorted x (insertion_sort l) (insertion_sort-IsSorted l)

    unfoldable pub insertion_sorter : Sorter
    unfolding insertion_sort
    insertion_sorter = record {
      sort = insertion_sort;
      permutes = insertion_sort-Permutes;
      sorted = insertion_sort-IsSorted;
    }
