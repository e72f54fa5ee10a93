-- ===== src/Sdk/Config.antt =====
-- sdk/src/subnet.rs: the configuration of a subnet and its administrator.
use rust_recall.Base.{ℕ, String, Option, []}
use rust_recall.Base.Int.{ℤ, pos}
use rust_recall.Base.Action.{Action}
use rust_recall.Actors.{
  set_admin, get_admin, set_config as set_config_method, get_config as get_config_method,
  set_admin_params, set_config_params,
}
use rust_recall.Fvm.{FvmQueryHeight, Fvm}
use rust_recall.Provider.Message.{GasParams}
use rust_recall.Provider.Tx.{BroadcastMode, TxResult}
use rust_recall.Provider.Response.{decode_empty, decode_as}
use rust_recall.Provider.Traits.{QueryProvider, Provider}
use rust_recall.Provider.JsonRpc.Rpc.{Client}
use rust_recall.Signer.World.{World}
use rust_recall.Signer.Traits.{Signer}
use rust_recall.Sdk.Codecs.{RecallConfig, Codecs}
use rust_recall.Sdk.Call.{TxOptions, read_actor, transact}

pub record SetConfigOptions : Type 0 where
  pub blob_capacity : ℕ
  pub token_credit_rate : ℤ
  pub blob_credit_debit_interval : ℤ
  pub blob_min_ttl : ℤ
  pub blob_default_ttl : ℤ
  pub broadcast_mode : BroadcastMode
  pub gas_params : GasParams

module _ (F : Fvm) {N : Type 0} where
  unfoldable pub set_config_admin :
      Provider F N → Signer F N → F.Address → TxOptions → Action (World N) (TxResult F (Unit {0}))
  set_config_admin provider signer address options =
      transact F provider signer F.config_actor (pos 0) set_admin (set_admin_params address) options
        (decode_empty F)

  unfoldable pub set_config :
      Provider F N → Signer F N → SetConfigOptions → Action (World N) (TxResult F (Unit {0}))
  set_config provider signer options =
      transact F provider signer F.config_actor (pos 0) set_config_method
        (set_config_params options.blob_capacity options.token_credit_rate
          options.blob_credit_debit_interval options.blob_min_ttl options.blob_default_ttl)
        (record { broadcast_mode = options.broadcast_mode; gas_params = options.gas_params })
        (decode_empty F)

  unfoldable pub get_config_admin :
      Codecs F → QueryProvider F N → FvmQueryHeight → Action N (Option F.Address)
  get_config_admin K provider at =
      read_actor F provider F.config_actor get_admin [] at
        (decode_as F K.address_option K.address_option_name)

  unfoldable pub get_config : Codecs F → QueryProvider F N → FvmQueryHeight → Action N RecallConfig
  get_config K provider at =
      read_actor F provider F.config_actor get_config_method [] at
        (decode_as F K.config K.config_name)

-- `Subnet::chain_id`, from the status of the node
unfoldable pub chain_id : (F : Fvm) (C : Client F) → Action C.Net String
chain_id F C = C.status
