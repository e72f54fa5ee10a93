-- ===== src/Base/Outcome.antt =====
-- `anyhow::Result`: a value, an error with the text that it displays, or a panic with its message.
use Prim.Native.String.{String}
use mathlib.Core.Path.{◌≡◌, refl}
use mathlib.Core.Logic.{◌⊎◌, inl, inr}
use mathlib.Core.Option.{Option, none, some}

pub data Result {ℓ} (A : Type ℓ) : Type ℓ where
  ok : A → Result A
  err : String → Result A
  panic : String → Result A

infixl 5 ◌>>=◌
abbrev pub ◌>>=◌ {ℓ κ} : {A : Type ℓ} {B : Type κ} → Result A → (A → Result B) → Result B
ok a >>= f = f a
err e >>= f = err e
panic e >>= f = panic e

-- `Option::ok_or`, and `Option::expect`
module _ {ℓ} {A : Type ℓ} where
  abbrev pub ok_or : Option A → String → Result A
  ok_or none e = err e
  ok_or (some a) e = ok a

  abbrev pub expect : Option A → String → Result A
  expect none e = panic e
  expect (some a) e = ok a

  -- `Result::expect` and `Result::unwrap`
  abbrev pub expect_ok : Result A → String → Result A
  expect_ok (ok a) m = ok a
  expect_ok (err e) m = panic m
  expect_ok (panic e) m = panic e

  -- `Context::context`: the context is what the error displays.
  abbrev pub context : Result A → String → Result A
  context (ok a) m = ok a
  context (err e) m = err m
  context (panic e) m = panic e

  -- `map_err(|e| anyhow!("...: {e}"))`
  abbrev pub map_err : Result A → (String → String) → Result A
  map_err (ok a) f = ok a
  map_err (err e) f = err (f e)
  map_err (panic e) f = panic e

  -- `Result::or_else`, where the error is not looked at
  abbrev pub or_else : Result A → Result A → Result A
  or_else (ok a) r = ok a
  or_else (err e) r = r
  or_else (panic e) r = panic e

abbrev pub map_ok {ℓ κ} : {A : Type ℓ} {B : Type κ} → (A → B) → Result A → Result B
map_ok f (ok a) = ok (f a)
map_ok f (err e) = err e
map_ok f (panic e) = panic e

-- `Option<Result<T>>::transpose`
abbrev pub transpose {ℓ} : {A : Type ℓ} → Option (Result A) → Result (Option A)
transpose none = ok none
transpose (some r) = map_ok some r

-- What holds of the value, if the call returns one.
abbrev pub IsOkWith {ℓ κ} : {A : Type ℓ} → (A → Type κ) → Result A → Type κ
IsOkWith P (ok a) = P a
IsOkWith P (err e) = Unit
IsOkWith P (panic e) = Unit

abbrev pub IsPanic {ℓ} : {A : Type ℓ} → Result A → Type 0
IsPanic (panic e) = Unit
IsPanic _ = ⊥

abbrev pub IsErr {ℓ} : {A : Type ℓ} → Result A → Type 0
IsErr (err e) = Unit
IsErr _ = ⊥

-- No value is returned.
abbrev pub IsFailure {ℓ} : {A : Type ℓ} → Result A → Type 0
IsFailure (ok a) = ⊥
IsFailure _ = Unit

pub Result-cases {ℓ} :
    {A : Type ℓ} (r : Result A)
    → ((a : A) × (r ≡ ok a)) ⊎ (((e : String) × (r ≡ err e)) ⊎ ((e : String) × (r ≡ panic e)))
Result-cases (ok a) = inl (a, refl)
Result-cases (err e) = inr (inl (e, refl))
Result-cases (panic e) = inr (inr (e, refl))
