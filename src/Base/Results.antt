-- ===== src/Base/Results.antt =====
-- Go's errors and the results of functions that may fail. An error is the format of its
-- `fmt.Errorf` with the arguments, so no two messages are confused; how a message is printed is
-- not modelled. An error that comes from outside the program is `foreign`.
use mathlib.Core.Path.{◌≡◌, refl}
use mathlib.Core.Option.{Option, none, some}
use mathlib.Core.List.{List}
use mathlib.Core.Logic.{◌⊎◌, inl, inr}
use Prim.Native.String.{String}
use native.Mathlib.Omega.{arith}
use docker_backup.Base.Strings.{Text}

pub data Error : Type 0 where
  foreign : Text → Error
  errorf : String → List Text → Error
  wrapf : String → List Text → Error → Error

pub data Result {ℓ} (A : Type ℓ) : Type ℓ where
  ok : A → Result A
  err : Error → Result A

-- `if err != nil { return fmt.Errorf(format, err) }`
abbrev pub wrap {ℓ} : {A : Type ℓ} → String → List Text → Result A → Result A
wrap f args (ok a) = ok a
wrap f args (err e) = err (wrapf f args e)

-- `v, ok := m[k]; if !ok { return err }`
abbrev pub or_fail {ℓ} : {A : Type ℓ} → Error → Option A → Result A
or_fail e none = err e
or_fail e (some a) = ok a

-- `if err != nil { return err }`, and then the rest of the function.
infixl 5 ◌>>=◌
abbrev pub ◌>>=◌ {ℓ κ} : {A : Type ℓ} {B : Type κ} → Result A → (A → Result B) → Result B
err x >>= rest = err x
ok v >>= rest = rest v

pub Result-cases {ℓ} :
    {A : Type ℓ} (r : Result A) → ((a : A) × (r ≡ ok a)) ⊎ ((e : Error) × (r ≡ err e))
Result-cases (ok a) = inl (a, refl)
Result-cases (err e) = inr (e, refl)

-- A chain that succeeds has a first step that succeeds, with the value that the rest goes on with.
pub bind_steps {ℓ κ} :
    {A : Type ℓ} {B : Type κ} (first : Result A) (rest : A → Result B) {end : B}
    → (first >>= rest) ≡ ok end
    → (value : A) × (first ≡ ok value) × (rest value ≡ ok end)
bind_steps (err x) rest run = cc
bind_steps (ok value) rest run = (value, refl, run)

pub ok_injective {ℓ} : {A : Type ℓ} {a b : A} → ok a ≡ ok b → a ≡ b
ok_injective h = ground arith

-- A wrapped result fails and succeeds as the result does.
module _ {ℓ} {A : Type ℓ} (f : String) (args : List Text) where
  pub wrap-ok : (r : Result A) {a : A} → wrap f args r ≡ ok a → r ≡ ok a
  wrap-ok (ok b) h = h
  wrap-ok (err e) h = cc

  pub wrap-err : (r : Result A) {e : Error} → wrap f args r ≡ err e → (x : Error) × (r ≡ err x)
  wrap-err (ok b) h = cc
  wrap-err (err e) h = (e, refl)
