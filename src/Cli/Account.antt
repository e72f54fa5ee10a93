-- ===== src/Cli/Account.antt =====
-- cli/src/account.rs: the options of accounts, and the subnets that they name.
pub mod Run
pub mod Create
use rust_recall.Base.{ℕ, String, Option, none, some, Result, ok, unwrap_or, map_ok}
use rust_recall.Base.Int.{ℤ}
use rust_recall.Actors as Actors
use rust_recall.Fvm.{Fvm}
use rust_recall.Signer.Subnet.{SubnetId, parent}
use rust_recall.Sdk.Network.{NetworkConfig, ParentNetworkConfig}
use rust_recall.Sdk.Ipc.Manager.{EvmSubnet}
use rust_recall.Cli.Options.{BroadcastMode, TxArgs, AddressArgs}
use rust_recall.Cli.Credit.{CreditCommands}

pub data TtlStatus : Type 0 where
  default reduced extended : TtlStatus

-- `TtlStatus::get`
unfoldable pub get_status : TtlStatus → Actors.TtlStatus
get_status default = Actors.default
get_status reduced = Actors.reduced
get_status extended = Actors.extended

module _ (F : Fvm) where
  pub record SubnetArgs : Type 0 where
    pub evm_rpc_url : Option String
    -- in seconds
    pub evm_rpc_timeout : ℕ
    pub evm_rpc_auth_token : Option String
    pub evm_gateway : Option F.Address
    pub evm_registry : Option F.Address
    pub evm_supply_source : Option F.Address

  pub record InfoArgs : Type 0 where
    pub address : AddressArgs F
    pub subnet : SubnetArgs

  pub record FundArgs : Type 0 where
    pub private_key : F.SecretKey
    pub to : Option F.Address
    pub amount : ℤ
    pub subnet : SubnetArgs

  pub record TransferArgs : Type 0 where
    pub private_key : F.SecretKey
    pub to : F.Address
    pub amount : ℤ
    pub subnet : SubnetArgs

  pub record SetSponsorArgs : Type 0 where
    pub private_key : F.SecretKey
    pub sponsor : F.Address
    pub broadcast_mode : BroadcastMode
    pub tx_args : TxArgs

  pub record UnsetSponsorArgs : Type 0 where
    pub private_key : F.SecretKey
    pub broadcast_mode : BroadcastMode
    pub tx_args : TxArgs

  pub record SetStatusArgs : Type 0 where
    pub private_key : F.SecretKey
    pub address : F.Address
    pub status : TtlStatus
    pub broadcast_mode : BroadcastMode
    pub tx_args : TxArgs

  -- `SponsorCommands` stands within `AccountCommands`.
  pub data AccountCommands : Type 0 where
    create : AccountCommands
    info : InfoArgs → AccountCommands
    deposit withdraw : FundArgs → AccountCommands
    transfer : TransferArgs → AccountCommands
    set_sponsor : SetSponsorArgs → AccountCommands
    unset_sponsor : UnsetSponsorArgs → AccountCommands
    credit : CreditCommands F → AccountCommands
    set_status : SetStatusArgs → AccountCommands

  unfoldable pub get_subnet_config : NetworkConfig F → SubnetArgs → EvmSubnet F
  get_subnet_config cfg args = record {
    id = cfg.subnet_id;
    provider_http = unwrap_or args.evm_rpc_url cfg.evm_rpc_url;
    provider_timeout = some args.evm_rpc_timeout;
    auth_token = args.evm_rpc_auth_token;
    registry_addr = unwrap_or args.evm_registry cfg.evm_registry_address;
    gateway_addr = unwrap_or args.evm_gateway cfg.evm_gateway_address;
    supply_source = none;
  }

  unfoldable pub get_parent_subnet_config :
      SubnetId F → ParentNetworkConfig F → SubnetArgs → Result (EvmSubnet F)
  get_parent_subnet_config subnet_id above args =
      map_ok
        (λ id. record {
          id = id;
          provider_http = unwrap_or args.evm_rpc_url above.evm_rpc_url;
          provider_timeout = some args.evm_rpc_timeout;
          auth_token = args.evm_rpc_auth_token;
          registry_addr = unwrap_or args.evm_registry above.evm_registry_address;
          gateway_addr = unwrap_or args.evm_gateway above.evm_gateway_address;
          supply_source = some (unwrap_or args.evm_supply_source above.evm_supply_source_address);
        })
        (parent F subnet_id)
