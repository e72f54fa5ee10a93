-- ===== src/Base/Action/Meter.antt =====
-- Counting what a call does: a meter tells how far the state has moved, and a call costs so much if
-- it moves the state so far. It models no code.
use Prim.Native.Nat.{ℕ, suc, ◌+◌, ◌≤◌}
use Prim.Native.String.{String}
use mathlib.Core.Path.{◌≡◌, subst}
use mathlib.Core.Bool.{Bool, true, false}
use native.Mathlib.Omega.{arith}
use rust_recall.Base.Test.{if◌then◌else◌}
use rust_recall.Base.Outcome.{Result, ok, err, panic}
use rust_recall.Base.Action.{Action, ◌>>=◌, lift, pure, fail, map_result}

pub record Meter (S : Type 0) : Type 1 where
  pub moved : ℕ → S → S → Type 0
  pub still : (s : S) → moved 0 s s
  pub further : (j k : ℕ) (s t u : S) → moved j s t → moved k t u → moved (j + k) s u

-- The meter of a part of the state
abbrev pub part_meter : {S T : Type 0} → (T → S) → Meter S → Meter T
part_meter part M = record {
  moved = λ k s t. M.moved k (part s) (part t);
  still = λ s. M.still (part s);
  further = λ j k s t u. M.further j k (part s) (part t) (part u);
}

module _ {S : Type 0} (M : Meter S) where
  -- By `k` if the call succeeds, and by at most `k` if it does not
  abbrev pub Charged {ℓ} : {A : Type ℓ} → ℕ → Result A → S → S → Type 0
  Charged k (ok a) s t = M.moved k s t
  Charged k (err e) s t = (j : ℕ) × (j ≤ k) × M.moved j s t
  Charged k (panic e) s t = (j : ℕ) × (j ≤ k) × M.moved j s t

  pub record Costs {ℓ} {A : Type ℓ} (k : ℕ) (m : Action S A) : Type ℓ where
    pub charged : (s : S) → Charged k (m s).0 s (m s).1

  module _ {ℓ} {A : Type ℓ} where
    pub Charged-moved : (k : ℕ) (r : Result A) (s t : S) → M.moved k s t → Charged k r s t
    Charged-moved k (ok a) s t h = h
    Charged-moved k (err e) s t h = (k, omega arith, h)
    Charged-moved k (panic e) s t h = (k, omega arith, h)

    -- A call that moves the state by `k`, however it ends
    pub Costs-moved : (k : ℕ) (m : Action S A) → ((s : S) → M.moved k s (m s).1) → Costs k m
    Costs-moved k m h = record { charged = λ s. Charged-moved k (m s).0 s (m s).1 (h s) }

    pub Costs-lift : (r : Result A) → Costs 0 (lift r)
    Costs-lift r = Costs-moved 0 (lift r) M.still

    pub Costs-pure : (a : A) → Costs 0 (pure a)
    Costs-pure a = Costs-moved 0 (pure a) M.still

    pub Costs-fail : (k : ℕ) (e : String) → Costs k (fail {A = A} e)
    Costs-fail k e = record { charged = λ s. (0, omega arith, M.still s) }

    pub Costs-panic : (k : ℕ) (e : String) → Costs k (lift {A = A} (panic e))
    Costs-panic k e = record { charged = λ s. (0, omega arith, M.still s) }

    pub Costs-if :
        {k : ℕ} {m n : Action S A} (b : Bool) → Costs k m → Costs k n → Costs k (if b then m else n)
    Costs-if true p q = p
    Costs-if false p q = q

    Charged-none : (r : Result A) (s t : S) → Charged 0 r s t → M.moved 0 s t
    Charged-none (ok a) s t h = h
    Charged-none (err e) s t (j, le, h) =
        let e : j ≡ 0 = omega arith in subst (λ i. M.moved i s t) e h
    Charged-none (panic e) s t (j, le, h) =
        let e : j ≡ 0 = omega arith in subst (λ i. M.moved i s t) e h

    after-Charged :
        (j k : ℕ) (s t u : S) (r : Result A)
        → M.moved j s t
        → Charged k r t u
        → Charged (j + k) r s u
    after-Charged j k s t u (ok x) p q = M.further j k s t u p q
    after-Charged j k s t u (err e) p (i, le, q) = (j + i, omega arith, M.further j i s t u p q)
    after-Charged j k s t u (panic e) p (i, le, q) = (j + i, omega arith, M.further j i s t u p q)

  module _ {ℓ κ} {A : Type ℓ} {B : Type κ} where
    bind : (A → Action S B) → Result A × S → Result B × S
    bind f r = elim r.0 [ ok a ↦ f a r.1 | err e ↦ (err e, r.1) | panic e ↦ (panic e, r.1) ]

    bind-Charged :
        (j k : ℕ) (f : A → Action S B) (s : S) (r : Result A × S)
        → ((a : A) → Costs k (f a))
        → Charged j r.0 s r.1
        → Charged (j + k) (bind f r).0 s (bind f r).1
    unfolding bind
    bind-Charged j k f s (ok a, t) q h =
        after-Charged j k s t (f a t).1 (f a t).0 h ((q a).charged t)
    bind-Charged j k f s (err e, t) q (i, le, h) = (i, omega arith, h)
    bind-Charged j k f s (panic e, t) q (i, le, h) = (i, omega arith, h)

    pub Costs->>= :
        {j k : ℕ} {m : Action S A} {f : A → Action S B}
        → Costs j m
        → ((a : A) → Costs k (f a))
        → Costs (j + k) (m >>= f)
    unfolding bind
    Costs->>= {j} {k} {m} {f} p q = record {
      charged = λ s. bind-Charged j k f s (m s) q (p.charged s);
    }

    -- A first part that costs nothing, and one that costs a step
    pub Costs-none :
        {k : ℕ} {m : Action S A} {f : A → Action S B}
        → Costs 0 m
        → ((a : A) → Costs k (f a))
        → Costs k (m >>= f)
    Costs-none {k} {m} {f} p q =
        let e : 0 + k ≡ k = omega arith in subst (λ n. Costs n (m >>= f)) e (Costs->>= p q)

    pub Costs-one :
        {k : ℕ} {m : Action S A} {f : A → Action S B}
        → Costs 1 m
        → ((a : A) → Costs k (f a))
        → Costs (suc k) (m >>= f)
    Costs-one {k} {m} {f} p q =
        let e : 1 + k ≡ suc k = omega arith in subst (λ n. Costs n (m >>= f)) e (Costs->>= p q)

    -- A call that costs nothing costs nothing either when its result is seen otherwise.
    pub Costs-map_result :
        {m : Action S A} (f : Result A → Result B) → Costs 0 m → Costs 0 (map_result f m)
    Costs-map_result {m} f p =
        Costs-moved 0 (map_result f m) (λ s. Charged-none (m s).0 s (m s).1 (p.charged s))

-- What moves a part of the state moves the whole.
pub Charged-part {ℓ} :
    {S T : Type 0} {A : Type ℓ} (M : Meter S) (part : T → S) (k : ℕ) (r : Result A) (s t : T)
    → Charged M k r (part s) (part t)
    → Charged (part_meter part M) k r s t
Charged-part M part k (ok a) s t h = h
Charged-part M part k (err e) s t h = h
Charged-part M part k (panic e) s t h = h

pub ruleset metered =
    (Costs-lift, Costs-pure, Costs-fail, Costs-if, Costs-none, Costs-one, Costs-map_result)
