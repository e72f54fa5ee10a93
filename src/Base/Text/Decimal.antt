-- ===== src/Base/Text/Decimal.antt =====
-- Reading a decimal number gives back what was printed.
use Prim.Native.String.{String, ◌++◌ as ◌<>◌}
use Prim.Native.Char.{code}
use rust_recall.Base.Outcome.{ok}
use mathlib.Core.Path.{◌≡◌, refl, ◌∙◌, ap}
use mathlib.Core.Bool.{false}
use mathlib.Core.Logic.{inl, inr}
use native.Mathlib.Omega.{arith}
use Prim.Native.Nat.{ℕ, zero, suc, ◌+◌, ◌-◌, ◌*◌, ◌/◌, ◌%◌, ◌<◌}
use text.Mathlib.TextLemmas.{nil-append, cons-append}
use rust_recall.Base.Test.{Bool-cases, ltb}
use rust_recall.Base.Text.{digit, show_fuel, show, digits_from, parse_u64, u64_mod, is_empty, Lacks}

-- Reading goes on behind what was read.
digits_from-append :
    (s t : String) (acc n : ℕ)
    → digits_from acc s ≡ ok n
    → digits_from acc (s <> t) ≡ digits_from n t
unfolding digits_from
digits_from-append String.[] t acc n h = rw nil-append (ground arith)
digits_from-append (String.◌∷◌ c s) t acc n h =
    rw cons-append (ground (arith, digits_from-append s t (acc * 10 + (code c - b'0')) n))

digits_from-digit :
    (d acc : ℕ) → d < 10 → acc * 10 + d < u64_mod → digits_from acc (digit d) ≡ ok (acc * 10 + d)
unfolding digits_from digit
digits_from-digit (suc (suc (suc (suc (suc (suc (suc (suc zero)))))))) acc h k = ground arith
digits_from-digit (suc (suc (suc (suc (suc (suc (suc (suc (suc d))))))))) acc h k = ground arith
digits_from-digit _ acc h k = ground arith

digits_from-show_fuel : (f n : ℕ) → n < f → n < u64_mod → digits_from 0 (show_fuel f n) ≡ ok n
unfolding show_fuel
digits_from-show_fuel zero n h k = absurd (omega arith)
digits_from-show_fuel (suc f) n h k = elim (Bool-cases (ltb n 10)) [
  | inl small ↦ rw small (digits_from-digit n 0 (ground arith) (omega arith) ∙ ap ok (omega arith))
  | inr big ↦ rw big (
      digits_from-append (show_fuel f (n / 10)) (digit (n % 10)) 0 (n / 10)
        (digits_from-show_fuel f (n / 10) (ground arith) (omega arith))
      ∙ (digits_from-digit (n % 10) (n / 10) (omega arith) (omega arith) ∙ ap ok (omega arith)))
]

is_empty-digit : (d : ℕ) → is_empty (digit d) ≡ false
unfolding digit
is_empty-digit (suc (suc (suc (suc (suc (suc (suc (suc zero)))))))) = refl
is_empty-digit _ = refl

is_empty-append : (s t : String) → is_empty t ≡ false → is_empty (s <> t) ≡ false
is_empty-append String.[] t h = rw nil-append h
is_empty-append (String.◌∷◌ c s) t h = rw cons-append refl

is_empty-show : (n : ℕ) → is_empty (show n) ≡ false
unfolding show
is_empty-show n = elim (Bool-cases (ltb n 10)) [
  | inl small ↦ rw small (is_empty-digit n)
  | inr big ↦ rw big (is_empty-append _ (digit (n % 10)) (is_empty-digit (n % 10)))
]

-- A text of digits is read with or without the test for a sign.
parse_u64_of_digits :
    (s : String) {n : ℕ} → is_empty s ≡ false → digits_from 0 s ≡ ok n → parse_u64 s ≡ ok n
unfolding parse_u64
parse_u64_of_digits String.[] h e = cc
parse_u64_of_digits (String.◌∷◌ c s) h e = ground arith

pub parse_u64-show : (n : ℕ) → n < u64_mod → parse_u64 (show n) ≡ ok n
unfolding show
parse_u64-show n h =
    parse_u64_of_digits (show n) (is_empty-show n) (digits_from-show_fuel (suc n) n (omega arith) h)

-- A printed number holds no other character than its digits.
Lacks-digit : (c d : ℕ) → c < b'0' → Lacks c (digit d)
unfolding digit
Lacks-digit c (suc (suc (suc (suc (suc (suc (suc (suc zero)))))))) h = ground arith
Lacks-digit c _ h = ground arith

pub Lacks-append : (c : ℕ) (s t : String) → Lacks c s → Lacks c t → Lacks c (s <> t)
Lacks-append c String.[] t h k = rw nil-append k
Lacks-append c (String.◌∷◌ d s) t h k = rw cons-append (h.0, Lacks-append c s t h.1 k)

Lacks-show_fuel : (c f n : ℕ) → c < b'0' → Lacks c (show_fuel f n)
unfolding show_fuel
Lacks-show_fuel c zero n h = tt
Lacks-show_fuel c (suc f) n h = elim (Bool-cases (ltb n 10)) [
  | inl small ↦ rw small (Lacks-digit c n h)
  | inr big ↦
      rw big (Lacks-append c _ _ (Lacks-show_fuel c f (n / 10) h) (Lacks-digit c (n % 10) h))
]

pub Lacks-show : (c n : ℕ) → c < b'0' → Lacks c (show n)
unfolding show
Lacks-show c n h = Lacks-show_fuel c (suc n) n h
