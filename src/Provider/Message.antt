-- ===== src/Provider/Message.antt =====
-- provider/src/message.rs
pub mod Limits
use rust_recall.Base.{ℕ, ◌<>◌, Bool, Result, if◌then◌else◌}
use rust_recall.Base.Int.{ℤ, pos, ltb_ℤ}
use rust_recall.Fvm.{Bytes, Message, ChainMessage, Fvm}

-- `MIN_GAS_FEE_CAP` and `MIN_GAS_PREMIUM`, in atto
abbrev pub min_gas_fee_cap : ℕ
min_gas_fee_cap = 100

abbrev pub min_gas_premium : ℕ
min_gas_premium = 1

-- A `TokenAmount` is a whole number of atto, of any size and sign.
pub record GasParams : Type 0 where
  pub gas_limit : ℕ
  pub gas_fee_cap : ℤ
  pub gas_premium : ℤ

-- `GasParams::default`
abbrev pub default_gas_params : GasParams
default_gas_params = record {
  gas_limit = 0;
  gas_fee_cap = pos min_gas_fee_cap;
  gas_premium = pos min_gas_premium;
}

raise_fee_cap : GasParams → GasParams
raise_fee_cap g =
    if ltb_ℤ g.gas_fee_cap (pos min_gas_fee_cap)
    then record g { gas_fee_cap = pos min_gas_fee_cap }
    else g

raise_premium : GasParams → GasParams
raise_premium g =
    if ltb_ℤ g.gas_premium (pos min_gas_premium)
    then record g { gas_premium = pos min_gas_premium }
    else g

-- `GasParams::set_limits`
unfoldable pub set_limits : GasParams → GasParams
unfolding raise_fee_cap raise_premium
set_limits g = raise_premium (raise_fee_cap g)

module _ (F : Fvm) where
  unfoldable pub local_message : F.Address → ℕ → Bytes → Message F.Address
  local_message to method_num params = record {
    version = 0;
    from = F.system_actor;
    to = to;
    sequence = 0;
    value = pos 0;
    method_num = method_num;
    params = params;
    gas_limit = F.block_gas_limit;
    gas_fee_cap = pos 0;
    gas_premium = pos 0;
  }

  -- `serialize`
  unfoldable pub serialize_message : ChainMessage F.SignedMessage → Result Bytes
  serialize_message m = F.encode_chain_message m
