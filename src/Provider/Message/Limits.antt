-- ===== src/Provider/Message/Limits.antt =====
-- The minimum gas prices that `GasParams::set_limits` enforces.
use rust_recall.Base.{◌≡◌, arith}
use rust_recall.Base.Int.{pos, ◌≤ℤ◌}
use rust_recall.Provider.Message.{GasParams, set_limits, min_gas_fee_cap, min_gas_premium}

-- The gas prices are at least the minimum prices.
abbrev pub MeetsLimits : GasParams → Type 0
MeetsLimits g = (pos min_gas_fee_cap ≤ℤ g.gas_fee_cap) × (pos min_gas_premium ≤ℤ g.gas_premium)

-- `set_limits` gives the least gas params that meet the minimum prices and are not below the given
-- ones: the result meets them, no price is lowered, the gas limit stays, and any `h` that meets the
-- minimum and is not below `g` is not below the result either.
pub set_limits_least :
    (g h : GasParams)
    → MeetsLimits h
    → g.gas_fee_cap ≤ℤ h.gas_fee_cap
    → g.gas_premium ≤ℤ h.gas_premium
    → let r = set_limits g in
      MeetsLimits r
      × (g.gas_fee_cap ≤ℤ r.gas_fee_cap)
      × (g.gas_premium ≤ℤ r.gas_premium)
      × (r.gas_limit ≡ g.gas_limit)
      × (r.gas_fee_cap ≤ℤ h.gas_fee_cap)
      × (r.gas_premium ≤ℤ h.gas_premium)
unfolding set_limits
set_limits_least g h m p q = ground arith

-- Params that meet the minimum prices are left as they are, so a second call changes nothing.
pub set_limits_idem : (g : GasParams) → set_limits (set_limits g) ≡ set_limits g
unfolding set_limits
set_limits_idem g = ground arith
