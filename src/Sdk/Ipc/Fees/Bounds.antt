-- ===== src/Sdk/Ipc/Fees/Bounds.antt =====
-- What the estimated fees of a transaction are in terms of the base fee.
use rust_recall.Base.{
  ℕ, ◌+◌, ◌*◌, ◌^◌, ◌<◌, ◌≤◌, ◌≡◌, ◌≢◌, List, [], ◌∷◌, some, ok, Result-cases, inl, inr, All,
  All-get_elem?, ltb, Bool-cases, arith,
}
use rust_recall.Base.Int.{ℤ}
use rust_recall.Sdk.Ipc.Fees.{
  base_fee_surged, estimate_priority_fee, fee_and_cap, EthClient, premium_estimation,
}
use rust_recall.Sdk.Ipc.Fees.Median.{
  Fits, Estimates, positive_rewards-ok, estimate_of_positive-Estimates,
}

-- The surged base fee lies between the base fee and twice the base fee.
base_fee_surged-bounds :
    (base : ℕ)
    → base < 2 ^ 250
    → (p : ℕ) × (base_fee_surged base ≡ ok p) × (base ≤ p) × (p ≤ 2 * base)
unfolding base_fee_surged
base_fee_surged-bounds base h = elim (Result-cases (base_fee_surged base)) [
  | inl (p, e) ↦ (p, e, ground arith, ground arith)
  | inr (inl (x, e)) ↦ absurd (ground arith)
  | inr (inr (x, e)) ↦ absurd (ground arith)
]

Estimates-Fits : (rewards : List ℕ) (fee : ℕ) → All Fits rewards → Estimates rewards fee → Fits fee
Estimates-Fits [] fee h e = omega (arith, e)
Estimates-Fits (r ∷ rest) fee h (i, m, e, _, _) = All-get_elem? Fits (r ∷ rest) i h e

fee_and_cap-bounds :
    (threshold : ℤ) (blocks : List (List ℕ)) (base : ℕ)
    → All (λ b. (b ≢ []) × All Fits b) blocks
    → base < 2 ^ 250
    → (fee cap : ℕ) × (fee_and_cap threshold blocks base ≡ ok (fee, cap))
      × (fee ≤ cap)
      × (base ≤ cap)
      × (cap ≤ fee + 2 * base)
unfolding fee_and_cap estimate_priority_fee
fee_and_cap-bounds threshold blocks base h b =
    let (rewards, e, fits) = positive_rewards-ok blocks h in
    let (fee, f, estimates) = estimate_of_positive-Estimates threshold rewards fits in
    let small = Estimates-Fits rewards fee fits estimates in
    let (p, g, low, high) = base_fee_surged-bounds base b in
    elim (Bool-cases (ltb p fee)) [
      | inl c ↦ (fee, fee + p, ground arith, omega arith, omega (arith, low), omega (arith, high))
      | inr c ↦ (fee, p, ground arith, ground arith, low, omega (arith, high))
    ]

-- Where the node reports a base fee below 2^250 and a history in which each block has a reward, and
-- rewards fit a signed word, the estimation succeeds. The fee cap is at least the priority fee and
-- at least the base fee, and at most the priority fee plus twice the base fee.
pub premium_estimation-bounds :
    {N : Type 0} (threshold : ℤ) (client : EthClient N) (s t u : N) (base : ℕ)
    (blocks : List (List ℕ))
    → client.latest_base_fee s ≡ (ok (some (some base)), t)
    → client.fee_history t ≡ (ok blocks, u)
    → All (λ b. (b ≢ []) × All Fits b) blocks
    → base < 2 ^ 250
    → (fee cap : ℕ) × (premium_estimation threshold client s ≡ (ok (fee, cap), u))
      × (fee ≤ cap)
      × (base ≤ cap)
      × (cap ≤ fee + 2 * base)
unfolding premium_estimation
premium_estimation-bounds threshold client s t u base blocks e f h b =
    let (fee, cap, g, over_fee, over_base, below) = fee_and_cap-bounds threshold blocks base h b in
    (fee, cap, ground arith, over_fee, over_base, below)
