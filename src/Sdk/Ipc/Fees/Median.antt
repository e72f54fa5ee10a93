-- ===== src/Sdk/Ipc/Fees/Median.antt =====
-- What the estimate of the priority fee is: one of the rewards, and no less than their median.
use rust_recall.Base.{
  ℕ, zero, suc, ◌+◌, ◌-◌, ◌/◌, ◌<◌, ◌≤◌, ◌≡◌, ◌≢◌, refl, List, [], ◌∷◌, some, ok, length, get_elem?,
  get_elem?-total, drop, All, All-append, All-get_elem?, Bool-cases, inl, inr, arith, length-append,
  Result-cases, Option-cases, not, ◌&&◌, leb, ltb, ◌∙◌, sym, ap,
}
use rust_recall.Base.Int.{ℤ, ltb_ℤ, eq_ℤ}
use rust_recall.Sdk.Ipc.Fees.{
  i256_min, positive_rewards, change, changes, rotate_left, pop, larger, max_change, position,
  median, from_big_change, estimate_of_many, estimate_of_positive, estimate_priority_fee,
}
use rust_recall.Sdk.Ipc.Fees.Sort.{
  sort, length-sort, All-sort, IsSorted, sort-IsSorted, get_elem?-IsSorted,
}

-- A reward fits a signed word.
abbrev pub Fits : ℕ → Type 0
Fits r = r < i256_min

change-ok : (a b : ℕ) → Fits a → Fits b → (c : ℤ) × (change a b ≡ ok c)
unfolding change
change-ok a b ha hb = elim (Result-cases (change a b)) [
  | inl r ↦ r
  | inr (inl (x, e)) ↦ absurd (ground arith)
  | inr (inr (x, e)) ↦ absurd (ground arith)
]

changes-ok :
    (xs ys : List ℕ)
    → All Fits xs
    → All Fits ys
    → length xs ≡ length ys
    → (cs : List ℤ) × (changes xs ys ≡ ok cs) × (length cs ≡ length xs)
unfolding changes
changes-ok [] ys hx hy e = ([], refl, refl)
changes-ok (x ∷ xs) [] hx hy e = absurd (omega arith)
changes-ok (x ∷ xs) (y ∷ ys) hx hy e =
    let (c, h) = change-ok x y hx.0 hy.0 in
    let (cs, k, l) = changes-ok xs ys hx.1 hy.1 (omega arith) in
    (c ∷ cs, ground arith, ground arith)

length-rotate_left : (xs : List ℕ) → length (rotate_left xs) ≡ length xs
length-rotate_left [] = refl
length-rotate_left (x ∷ xs) = omega (arith, length-append xs (x ∷ []))

All-rotate_left : (xs : List ℕ) → All Fits xs → All Fits (rotate_left xs)
All-rotate_left [] h = tt
All-rotate_left (x ∷ xs) h = All-append Fits xs (x ∷ []) h.1 (h.0, tt)

length-pop : (cs : List ℤ) → 0 < length cs → suc (length (pop cs)) ≡ length cs
length-pop [] h = absurd (omega arith)
length-pop (c ∷ []) h = refl
length-pop (c ∷ d ∷ rest) h = omega (arith, length-pop (d ∷ rest) (omega arith))

-- The maximum stands in the list.
position_found :
    (cs : List ℤ) {m : ℤ}
    → max_change cs ≡ some m
    → (i : ℕ) × (position m cs ≡ some i) × (i < length cs)
unfolding position
position_found [] h = cc
position_found (c ∷ cs) {m} h = elim (Bool-cases (eq_ℤ c m)) [
  | inl e ↦ (0, ground arith, omega arith)
  | inr e ↦ elim (Option-cases (max_change cs)) [
    | inl f ↦ absurd (ground arith)
    | inr (d, f) ↦
        let (i, k, b) = position_found cs {m = d} f in (suc i, ground arith, omega (arith, b))
  ]
]

get_elem?-drop : (xs : List ℕ) (k i : ℕ) → get_elem? (drop k xs) i ≡ get_elem? xs (k + i)
get_elem?-drop xs zero i = ap (get_elem? xs) (omega arith)
get_elem?-drop [] (suc k) i = refl
get_elem?-drop (x ∷ xs) (suc k) i =
    get_elem?-drop xs k i
    ∙ ap (get_elem? (x ∷ xs)) (let e : suc (k + i) ≡ suc k + i = omega arith in e)

length-drop : (xs : List ℕ) (k : ℕ) → length (drop k xs) ≡ length xs - k
length-drop xs zero = omega arith
length-drop [] (suc k) = omega arith
length-drop (x ∷ xs) (suc k) = omega (arith, length-drop xs k)

-- From an index on, the middle of a list is no further left.
median-drop :
    (xs : List ℕ) (k : ℕ)
    → k < length xs
    → IsSorted xs
    → (fee m i : ℕ) × (median (drop k xs) ≡ ok fee)
      × (get_elem? xs i ≡ some fee)
      × (get_elem? xs (length xs / 2) ≡ some m)
      × (m ≤ fee)
median-drop xs k h s =
    let n = length xs in
    let i = k + (n - k) / 2 in
    let (fee, e) = get_elem?-total xs i (omega arith) in
    let (m, f) = get_elem?-total xs (n / 2) (omega arith) in
    let found : get_elem? (drop k xs) ((n - k) / 2) ≡ some fee =
      get_elem?-drop xs k ((n - k) / 2) ∙ e in
    (
      fee,
      m,
      i,
      rw (length-drop, found) refl,
      e,
      f,
      get_elem?-IsSorted xs (n / 2) i m fee s (omega arith) f e,
    )

from_big_change-drop :
    (threshold : ℤ) (rewards : List ℕ) (cs : List ℤ)
    → 0 < length cs
    → length cs < length rewards
    → (k : ℕ) × (from_big_change threshold rewards cs ≡ ok (drop k rewards)) × (k < length rewards)
unfolding from_big_change
from_big_change-drop threshold rewards [] h l = absurd (omega arith)
from_big_change-drop threshold rewards (c ∷ cs) h l =
    let (i, e, b) = position_found (c ∷ cs) refl in
    elim (Bool-cases
      (not (ltb_ℤ (larger c (max_change cs)) threshold) && leb (length rewards / 2) i)) [
        | inl big ↦ (i, ground arith, omega (arith, b))
        | inr small ↦ (0, ground arith, omega arith)
      ]

-- The fee is 0 without rewards, and otherwise one of the rewards and no less than their median.
abbrev pub Estimates : List ℕ → ℕ → Type 0
Estimates [] fee = fee ≡ 0
Estimates (r ∷ rest) fee =
    (i m : ℕ) × (get_elem? (r ∷ rest) i ≡ some fee)
    × (get_elem? (sort (r ∷ rest)) (length (r ∷ rest) / 2) ≡ some m)
    × (m ≤ fee)

-- Every item stands at some index.
abbrev StandsIn : List ℕ → ℕ → Type 0
StandsIn xs a = (i : ℕ) × (get_elem? xs i ≡ some a)

All-StandsIn :
    (xs ys : List ℕ) → ((i a : ℕ) → get_elem? ys i ≡ some a → StandsIn xs a) → All (StandsIn xs) ys
All-StandsIn xs [] f = tt
All-StandsIn xs (y ∷ ys) f = (f 0 y refl, All-StandsIn xs ys (λ i a e. f (suc i) a e))

estimate_of_many-Estimates :
    (threshold : ℤ) (r s : ℕ) (rest : List ℕ)
    → All Fits (r ∷ s ∷ rest)
    → (fee : ℕ) × (estimate_of_many threshold (r ∷ s ∷ rest) ≡ ok fee)
      × Estimates (r ∷ s ∷ rest) fee
unfolding estimate_of_many
estimate_of_many-Estimates threshold r s rest h =
    let xs = r ∷ s ∷ rest in
    let fits = All-sort Fits xs h in
    let n = length-sort xs in
    let (cs, e, l) =
      changes-ok (sort xs) (rotate_left (sort xs)) fits (All-rotate_left (sort xs) fits)
        (sym (length-rotate_left (sort xs))) in
    let p = length-pop cs (omega (arith, n, l)) in
    let (k, f, b) =
      from_big_change-drop threshold (sort xs) (pop cs) (omega (arith, n, l, p))
        (omega (arith, n, l, p)) in
    let (fee, m, i, g, at, mid, le) = median-drop (sort xs) k b (sort-IsSorted xs) in
    let (j, stands) =
      All-get_elem? (StandsIn xs) (sort xs) i
        (All-sort (StandsIn xs) xs (All-StandsIn xs xs (λ i a e. (i, e)))) at in
    (fee, rw (e, f) g, (j, m, stands, rw (sym n) mid, le))

sort_one : (r : ℕ) → get_elem? (sort (r ∷ [])) (length (r ∷ []) / 2) ≡ some r
unfolding sort
sort_one r = refl

pub positive_rewards-ok :
    (blocks : List (List ℕ))
    → All (λ b. (b ≢ []) × All Fits b) blocks
    → (rewards : List ℕ) × (positive_rewards blocks ≡ ok rewards) × All Fits rewards
unfolding positive_rewards
positive_rewards-ok [] h = ([], refl, tt)
positive_rewards-ok ([] ∷ blocks) h = absurd (h.0.0 refl)
positive_rewards-ok ((r ∷ others) ∷ blocks) h =
    let (rewards, e, fits) = positive_rewards-ok blocks h.1 in
    elim (Bool-cases (ltb 0 r)) [
      | inl p ↦ (r ∷ rewards, rw (e, p) refl, (h.0.1.0, fits))
      | inr p ↦ (rewards, rw (e, p) refl, fits)
    ]

pub estimate_of_positive-Estimates :
    (threshold : ℤ) (rewards : List ℕ)
    → All Fits rewards
    → (fee : ℕ) × (estimate_of_positive threshold rewards ≡ ok fee) × Estimates rewards fee
unfolding estimate_of_positive
estimate_of_positive-Estimates threshold [] h = (0, refl, refl)
estimate_of_positive-Estimates threshold (r ∷ []) h =
    (r, refl, (0, r, refl, sort_one r, omega arith))
estimate_of_positive-Estimates threshold (r ∷ s ∷ rest) h =
    estimate_of_many-Estimates threshold r s rest h

-- Where each block of the history has a reward, and rewards fit a signed word, the estimate of the
-- priority fee does not panic. It is 0 without positive rewards, and otherwise one of the positive
-- rewards and no less than their median.
pub estimate_priority_fee-Estimates :
    (threshold : ℤ) (blocks : List (List ℕ))
    → All (λ b. (b ≢ []) × All Fits b) blocks
    → (rewards : List ℕ) × (fee : ℕ) × (positive_rewards blocks ≡ ok rewards)
      × (estimate_priority_fee threshold blocks ≡ ok fee)
      × Estimates rewards fee
unfolding estimate_priority_fee
estimate_priority_fee-Estimates threshold blocks h =
    let (rewards, e, fits) = positive_rewards-ok blocks h in
    let (fee, f, estimates) = estimate_of_positive-Estimates threshold rewards fits in
    (rewards, fee, e, rw e f, estimates)
