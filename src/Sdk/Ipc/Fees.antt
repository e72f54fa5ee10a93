-- ===== src/Sdk/Ipc/Fees.antt =====
-- sdk/src/ipc/manager.rs: the estimate of the fees of an EVM transaction (`base_fee_surged`,
-- `estimate_priority_fee`, `premium_estimation`). A `U256` operation that overflows panics; a
-- product of `I256` wraps, xs in the release build.
pub mod Sort
pub mod Median
pub mod Bounds
use rust_recall.Base.{
  ℕ, zero, suc, ◌+◌, ◌-◌, ◌*◌, ◌/◌, ◌%◌, ◌^◌, Bool, true, false, ◌&&◌, ◌++◌, List, [], ◌∷◌, Option,
  none, some, Result, ok, err, panic, expect, map_ok, ◌>>=◌ as ◌>>=ʳ◌, ok_or, ltb, leb,
  if◌then◌else◌, length, get_elem?, drop, not,
}
use mathlib.Core.Option as Opt
use rust_recall.Base.Int.{ℤ, pos, negsuc, sub_ℕ, ◌*ℤ◌, div_trunc, ltb_ℤ, eq_ℤ}
use rust_recall.Base.Action.{Action, ◌>>=◌, lift, pure}
use Sort.{sort}

abbrev pub u256_mod : ℕ
u256_mod = 2 ^ 256

abbrev pub i256_min : ℕ
i256_min = 2 ^ 255

-- An operation on `U256`, by its exact value
abbrev pub checked : ℕ → Result ℕ
checked n = if ltb n u256_mod then ok n else panic "arithmetic operation overflow"

-- `base_fee_per_gas * numerator / denominator`
abbrev scaled : ℕ → ℕ → ℕ → Result ℕ
scaled fee numerator denominator = map_ok (λ n. n / denominator) (checked (fee * numerator))

unfoldable pub base_fee_surged : ℕ → Result ℕ
base_fee_surged fee =
    if leb fee 40000000000
    then checked (fee * 2)
    else if leb fee 100000000000
    then scaled fee 16 10
    else if leb fee 200000000000
    then scaled fee 14 10
    else scaled fee 12 10

-- The first reward of each block, if it is not zero; a block with no reward is indexed out of
-- bounds.
unfoldable pub positive_rewards : List (List ℕ) → Result (List ℕ)
positive_rewards [] = ok []
positive_rewards ([] ∷ blocks) = panic "index out of bounds"
positive_rewards ((r ∷ _) ∷ blocks) =
    map_ok (λ rest. if ltb 0 r then r ∷ rest else rest) (positive_rewards blocks)

-- The value of a 256-bit word xs a signed number
abbrev signed_word : ℕ → ℤ
signed_word n = if ltb n i256_min then pos n else sub_ℕ n u256_mod

abbrev wrap_i256 : ℤ → ℤ
wrap_i256 (pos n) = signed_word (n % u256_mod)
wrap_i256 (negsuc n) = signed_word (u256_mod - 1 - n % u256_mod)

-- `I256::try_from`
abbrev i256 : ℕ → Result ℤ
i256 n = if ltb n i256_min then ok (pos n) else panic "priority fee overflow"

-- The change from `a` to `b` in percent
unfoldable pub change : ℕ → ℕ → Result ℤ
change a b = i256 a >>=ʳ λ _. map_ok (λ _. div_trunc (wrap_i256 (sub_ℕ b a *ℤ pos 100)) a) (i256 b)

unfoldable pub changes : List ℕ → List ℕ → Result (List ℤ)
unfolding change
changes [] ys = ok []
changes (a ∷ xs) [] = ok []
changes (a ∷ xs) (b ∷ ys) = change a b >>=ʳ λ c. map_ok (◌∷◌ c) (changes xs ys)

-- `rotate_left(1)`, and `pop`
abbrev pub rotate_left : List ℕ → List ℕ
rotate_left [] = []
rotate_left (a ∷ xs) = xs ++ a ∷ []

abbrev pub pop : List ℤ → List ℤ
pop [] = []
pop (c ∷ []) = []
pop (c ∷ d ∷ rest) = c ∷ pop (d ∷ rest)

abbrev pub larger : ℤ → Option ℤ → ℤ
larger c none = c
larger c (some d) = if ltb_ℤ d c then c else d

abbrev pub max_change : List ℤ → Option ℤ
max_change [] = none
max_change (c ∷ cs) = some (larger c (max_change cs))

-- `position(|&c| c == value)`
unfoldable pub position : ℤ → List ℤ → Option ℕ
position value [] = none
position value (c ∷ cs) = if eq_ℤ c value then some 0 else Opt.map suc (position value cs)

-- `values[values.len() / 2]`
abbrev pub median : List ℕ → Result ℕ
median values = expect (get_elem? values (length values / 2)) "index out of bounds"

-- The rewards from a big change on, if it stands in the upper half.
module _ (threshold : ℤ) where
  unfoldable pub from_big_change : List ℕ → List ℤ → Result (List ℕ)
  from_big_change rewards percentages =
      expect (max_change percentages) "called `Option::unwrap()` on a `None` value" >>=ʳ λ top.
      map_ok
        (λ index.
          if not (ltb_ℤ top threshold) && leb (length rewards / 2) index
          then drop index rewards
          else rewards)
        (expect (position top percentages) "called `Option::unwrap()` on a `None` value")

  -- The estimate from at least two rewards
  unfoldable pub estimate_of_many : List ℕ → Result ℕ
  unfolding from_big_change
  estimate_of_many rewards = changes (sort rewards) (rotate_left (sort rewards)) >>=ʳ λ percentages.
      from_big_change (sort rewards) (pop percentages) >>=ʳ λ values. median values

  unfoldable pub estimate_of_positive : List ℕ → Result ℕ
  estimate_of_positive [] = ok 0
  estimate_of_positive (r ∷ []) = ok r
  estimate_of_positive (r ∷ s ∷ rest) = estimate_of_many (r ∷ s ∷ rest)

  -- `estimate_priority_fee`; the threshold is `EIP1559_FEE_ESTIMATION_THRESHOLD_MAX_CHANGE`.
  unfoldable pub estimate_priority_fee : List (List ℕ) → Result ℕ
  estimate_priority_fee blocks = positive_rewards blocks >>=ʳ estimate_of_positive

  -- The end of `premium_estimation`: the fee and the fee cap
  unfoldable pub fee_and_cap : List (List ℕ) → ℕ → Result (ℕ × ℕ)
  fee_and_cap rewards base_fee = estimate_priority_fee rewards >>=ʳ λ fee.
      base_fee_surged base_fee >>=ʳ λ potential.
      map_ok (λ cap. (fee, cap))
        (if ltb potential fee then checked (fee + potential) else ok potential)

-- The EVM client: `get_block` of the latest block, by its base fee, and `fee_history` of the past
-- blocks, by its rewards
pub record EthClient (N : Type 0) : Type 0 where
  pub latest_base_fee : Action N (Option (Option ℕ))
  pub fee_history : Action N (List (List ℕ))

unfoldable pub premium_estimation : {N : Type 0} → ℤ → EthClient N → Action N (ℕ × ℕ)
premium_estimation threshold client = do
  block ← client.latest_base_fee
  header ← lift (ok_or block "Latest block not found")
  base_fee ← lift (ok_or header "EIP-1559 not activated")
  rewards ← client.fee_history
  lift (fee_and_cap threshold rewards base_fee)
