-- ===== src/Cli/Defaults.antt =====
-- What a command means whose options are left out.
use rust_recall.Base.{ℕ, none, some, ok, unwrap_or, ◌≡◌, refl, if◌then◌else◌, arith, map_ok}
use rust_recall.Base.Int.{ℤ, pos, ltb_ℤ}
use rust_recall.Fvm.{Fvm}
use rust_recall.Provider.Message.{default_gas_params, set_limits, min_gas_fee_cap, min_gas_premium}
use rust_recall.Signer.Subnet.{SubnetId, parent}
use rust_recall.Sdk.Network.{
  NetworkConfig, ParentNetworkConfig, subnet_config, parent_subnet_config, to_parent_subnet,
  default_rpc_timeout,
}
use rust_recall.Cli.Options.{TxArgs, to_tx_params}
use rust_recall.Cli.Account.{SubnetArgs, get_subnet_config, get_parent_subnet_config}

-- An amount that is at least the minimum
abbrev pub raised : ℕ → ℤ → ℤ
raised least amount = if ltb_ℤ amount (pos least) then pos least else amount

-- The gas parameters that a transaction of the command line is signed with: a limit that is left out
-- is 0, which asks for an estimate; a fee cap or a premium that is left out is the default one, and
-- one that is given is raised to the minimum.
pub set_limits-to_tx_params :
    (args : TxArgs)
    → let gas = set_limits (to_tx_params args).gas_params in
      (gas.gas_limit ≡ unwrap_or args.gas_limit default_gas_params.gas_limit)
      × (gas.gas_fee_cap
          ≡ raised min_gas_fee_cap (unwrap_or args.gas_fee_cap default_gas_params.gas_fee_cap))
      × (gas.gas_premium
          ≡ raised min_gas_premium (unwrap_or args.gas_premium default_gas_params.gas_premium))
unfolding set_limits to_tx_params
set_limits-to_tx_params args = ground arith

module _ (F : Fvm) where
  -- The options of a subnet when none is given: the timeout of 60 seconds is `clap`'s default.
  abbrev pub no_subnet_args : SubnetArgs F
  no_subnet_args = record {
    evm_rpc_url = none;
    evm_rpc_timeout = default_rpc_timeout;
    evm_rpc_auth_token = none;
    evm_gateway = none;
    evm_registry = none;
    evm_supply_source = none;
  }

  -- Without options the command line uses the sdk's own configuration of a network's subnet, and of
  -- its parent, if the network has a parent and its subnet ID one too.
  pub get_subnet_config-default :
      (cfg : NetworkConfig F) (above : ParentNetworkConfig F) (id : SubnetId F)
      → cfg.parent_network_config ≡ some above
      → parent F cfg.subnet_id ≡ ok id
      → (get_subnet_config F cfg no_subnet_args ≡ subnet_config F cfg)
        × (map_ok some (get_parent_subnet_config F cfg.subnet_id above no_subnet_args)
            ≡ parent_subnet_config F cfg)
  unfolding get_subnet_config subnet_config get_parent_subnet_config parent_subnet_config
      to_parent_subnet
  get_subnet_config-default cfg above id h e = (refl, ground arith)
