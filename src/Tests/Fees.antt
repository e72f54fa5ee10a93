-- ===== src/Tests/Fees.antt =====
-- Tests of the estimate of fees: four blocks, of which one has no reward above zero.
use rust_recall.Base.{ℕ, ◌+◌, ◌*◌, ◌≤◌, ◌≡◌, ◌≢◌, refl, some, ok, arith, List, [], ◌∷◌, All, suc}
use rust_recall.Base.Int.{pos, div_trunc, ◌*ℤ◌}
use rust_recall.Sdk.Ipc.Fees.{
  EthClient, positive_rewards, estimate_of_positive, estimate_of_many, changes, position,
  estimate_priority_fee, premium_estimation,
}
use rust_recall.Sdk.Ipc.Fees.Sort.{sort}
use rust_recall.Sdk.Ipc.Fees.Median.{Fits, Estimates, estimate_priority_fee-Estimates}
use rust_recall.Sdk.Ipc.Fees.Bounds.{premium_estimation-bounds}

abbrev blocks : List (List ℕ)
blocks = (100 ∷ []) ∷ (0 ∷ []) ∷ (900 ∷ []) ∷ (110 ∷ []) ∷ []

blocks_fit : All (λ b. (b ≢ []) × All Fits b) blocks
blocks_fit = ground arith

-- The jump from 110 to 900 stands in the upper half, so only 110 and 900 count.
estimate_after_jump : estimate_priority_fee (pos 200) blocks ≡ ok 900
unfolding estimate_priority_fee positive_rewards estimate_of_positive estimate_of_many changes sort
    position div_trunc ◌*ℤ◌
estimate_after_jump = refl

estimate_priority_fee-Estimates_example :
    (rewards : List ℕ) × (fee : ℕ) × (positive_rewards blocks ≡ ok rewards)
    × (estimate_priority_fee (pos 200) blocks ≡ ok fee)
    × Estimates rewards fee
estimate_priority_fee-Estimates_example =
    estimate_priority_fee-Estimates (pos 200) blocks blocks_fit

abbrev eth_client : EthClient ℕ
eth_client = record {
  latest_base_fee = λ n. (ok (some (some 50000000000)), suc n);
  fee_history = λ n. (ok blocks, suc n);
}

premium_estimation-bounds_example :
    (fee cap : ℕ) × (premium_estimation (pos 200) eth_client 0 ≡ (ok (fee, cap), 2))
    × (fee ≤ cap)
    × (50000000000 ≤ cap)
    × (cap ≤ fee + 2 * 50000000000)
premium_estimation-bounds_example =
    premium_estimation-bounds (pos 200) eth_client 0 1 2 50000000000 blocks refl refl blocks_fit
      (ground arith)
