-- ===== src/Base/Map.antt =====
-- Go's maps with string keys, as association lists. A `range` loop walks the list, so the list's
-- order is the iteration order, which Go leaves open.
use mathlib.Core.Path.{◌≡◌, refl}
use mathlib.Core.Bool.{Bool, true, false}
use mathlib.Core.Option.{Option, none, some}
use mathlib.Core.List.{List, [], ◌∷◌}
use native.Mathlib.Omega.{arith}
use docker_backup.Base.Tests.{if◌then◌else◌}
use docker_backup.Base.Strings.{Text, ◌==◌}
use docker_backup.Base.Strings.Laws.{==_iff}

abbrev pub Map {ℓ} : Type ℓ → Type ℓ
Map V = List (Text × V)

module _ {ℓ} {V : Type ℓ} where
  -- v, ok := m[k]
  unfoldable pub get : Text → Map V → Option V
  get k [] = none
  get k ((j, v) ∷ m) = let rest = get k m in if j == k then some v else rest

  -- m[k] = v
  unfoldable pub put : Text → V → Map V → Map V
  put k v [] = (k, v) ∷ []
  put k v ((j, w) ∷ m) = let rest = put k v m in if j == k then (j, v) ∷ m else (j, w) ∷ rest

  -- delete(m, k)
  unfoldable pub remove : Text → Map V → Map V
  remove k [] = []
  remove k ((j, v) ∷ m) = let rest = remove k m in if j == k then rest else (j, v) ∷ rest

  abbrev pub keys : Map V → List Text
  keys [] = []
  keys ((k, v) ∷ m) = k ∷ keys m

  -- _, ok := m[k]
  abbrev pub has : Text → Map V → Bool
  has k m = elim (get k m) [ none ↦ false | some _ ↦ true ]

  -- No key stands twice.
  abbrev pub NodupKeys : Map V → Type 0
  NodupKeys [] = Unit
  NodupKeys ((k, v) ∷ m) = (has k m ≡ false) × NodupKeys m

  pub get-put :
      (k j : Text) (v : V) (m : Map V) → get j (put k v m) ≡ (if k == j then some v else get j m)
  unfolding get put
  get-put k j v [] = refl
  get-put k j v ((i, w) ∷ m) = ground (arith, ==_iff k j, ==_iff i k, ==_iff i j, get-put k j v m)

  pub get-remove :
      (k j : Text) (m : Map V) → get j (remove k m) ≡ (if k == j then none else get j m)
  unfolding get remove
  get-remove k j [] = ground arith
  get-remove k j ((i, w) ∷ m) = ground (arith, ==_iff k j, ==_iff i k, ==_iff i j, get-remove k j m)

  pub put-NodupKeys : (k : Text) (v : V) (m : Map V) → NodupKeys m → NodupKeys (put k v m)
  unfolding put get
  put-NodupKeys k v [] h = ground arith
  put-NodupKeys k v ((i, w) ∷ m) h =
      ground (arith, ==_iff i k, ==_iff k i, put-NodupKeys k v m h.1, get-put k i v m)

  pub remove-NodupKeys : (k : Text) (m : Map V) → NodupKeys m → NodupKeys (remove k m)
  unfolding remove get
  remove-NodupKeys k [] h = tt
  remove-NodupKeys k ((i, w) ∷ m) h =
      ground (arith, ==_iff i k, ==_iff k i, remove-NodupKeys k m h.1, get-remove k i m)

  pub has-put :
      (k j : Text) (v : V) (m : Map V) → has j (put k v m) ≡ (if k == j then true else has j m)
  has-put k j v m = ground (arith, get-put k j v m)

  pub has-remove :
      (k j : Text) (m : Map V) → has j (remove k m) ≡ (if k == j then false else has j m)
  has-remove k j m = ground (arith, get-remove k j m)

  pub has-get : (k : Text) (m : Map V) → has k m ≡ true → (v : V) × (get k m ≡ some v)
  has-get k m h = ground arith

  pub get-has : (k : Text) (m : Map V) {v : V} → get k m ≡ some v → has k m ≡ true
  get-has k m e = ground arith
