-- ===== src/Base/Action.antt =====
-- Asynchronous calls: what a call returns, and the state of the world after it. An error keeps
-- the state reached so far.
pub mod Meter
use Prim.Native.String.{String}
use mathlib.Core.Path.{◌≡◌, refl, sym, subst}
use mathlib.Core.Bool.{Bool, true, false}
use native.Mathlib.Omega.{arith}
use rust_recall.Base.Test.{if◌then◌else◌}
use rust_recall.Base.Outcome.{Result, ok, err, panic, map_err}

abbrev pub Action {ℓ κ} : Type ℓ → Type κ → Type (ℓ ⊔ κ)
Action S A = S → Result A × S

infixl 5 ◌>>=◌
abbrev pub ◌>>=◌ {ℓ κ μ} :
    {S : Type ℓ} {A : Type κ} {B : Type μ} → Action S A → (A → Action S B) → Action S B
◌>>=◌ m f s =
    let (r, t) = m s in elim r [ ok a ↦ f a t | err e ↦ (err e, t) | panic e ↦ (panic e, t) ]

module _ {ℓ κ} {S : Type ℓ} {A : Type κ} where
  abbrev pub lift : Result A → Action S A
  lift r s = (r, s)

  abbrev pub pure : A → Action S A
  pure a s = (ok a, s)

  abbrev pub fail : String → Action S A
  fail e s = (err e, s)

-- `Context::context` and `map_err` on the result of a call
abbrev pub map_result {ℓ κ μ} :
    {S : Type ℓ} {A : Type κ} {B : Type μ} → (Result A → Result B) → Action S A → Action S B
map_result f m s = let (r, t) = m s in (f r, t)

-- Inversion of a call that succeeds: each part did, and the second began where the first ended.
module _ {ℓ κ μ} {S : Type ℓ} {A : Type κ} {B : Type μ} where
  pub >>=-eq-ok :
      (m : Action S A) (f : A → Action S B) (s : S) {b : B} {u : S}
      → (m >>= f) s ≡ (ok b, u)
      → (a : A) × (t : S) × (m s ≡ (ok a, t)) × (f a t ≡ (ok b, u))
  >>=-eq-ok m f s {b} {u} h = go (m s) refl h
    where
      go :
          (r : Result A × S)
          → m s ≡ r
          → (elim r.0 [ ok a ↦ f a r.1 | err e ↦ (err e, r.1) | panic e ↦ (panic e, r.1) ])
            ≡ (ok b, u)
          → (a : A) × (t : S) × (m s ≡ (ok a, t)) × (f a t ≡ (ok b, u))
      go (ok a, t) e k = (a, t, e, k)
      go (err x, t) e k = cc
      go (panic x, t) e k = cc

pub lift-eq-ok {ℓ κ} :
    {S : Type ℓ} {A : Type κ} (r : Result A) (s : S) {a : A} {t : S}
    → lift r s ≡ (ok a, t)
    → (r ≡ ok a) × (s ≡ t)
lift-eq-ok r s h = ground arith

-- A call that succeeds is followed by the rest.
pub >>=-ok {ℓ κ μ} :
    {S : Type ℓ} {A : Type κ} {B : Type μ} (m : Action S A) (f : A → Action S B) (s : S) {a : A}
    {t : S}
    → m s ≡ (ok a, t)
    → (m >>= f) s ≡ f a t
>>=-ok m f s {a} {t} h =
    subst
      (λ x. (elim x.0 [ ok a ↦ f a x.1 | err e ↦ (err e, x.1) | panic e ↦ (panic e, x.1) ]) ≡ f a t)
      (sym h) refl

-- The same where the first part only looks at a result: the state is left alone.
module _ {ℓ κ μ} {S : Type ℓ} {A : Type κ} {B : Type μ} where
  pub lift->>=-eq-ok :
      (r : Result A) (f : A → Action S B) (s : S) {b : B} {u : S}
      → (lift r >>= f) s ≡ (ok b, u)
      → (a : A) × (r ≡ ok a) × (f a s ≡ (ok b, u))
  lift->>=-eq-ok (ok a) f s h = (a, refl, h)
  lift->>=-eq-ok (err e) f s h = cc
  lift->>=-eq-ok (panic e) f s h = cc

  pub lift-map_err->>=-eq-ok :
      (r : Result A) (g : String → String) (f : A → Action S B) (s : S) {b : B} {u : S}
      → (lift (map_err r g) >>= f) s ≡ (ok b, u)
      → (a : A) × (r ≡ ok a) × (f a s ≡ (ok b, u))
  lift-map_err->>=-eq-ok (ok a) g f s h = (a, refl, h)
  lift-map_err->>=-eq-ok (err e) g f s h = cc
  lift-map_err->>=-eq-ok (panic e) g f s h = cc

-- A test that is not failed
pub unless-eq-ok {ℓ κ} :
    {S : Type ℓ} {A : Type κ} (b : Bool) (e : String) (m : Action S A) (s : S) {a : A} {u : S}
    → (if b then fail e else m) s ≡ (ok a, u)
    → (b ≡ false) × (m s ≡ (ok a, u))
unless-eq-ok true e m s h = cc
unless-eq-ok false e m s h = (refl, h)
