-- ===== src/Sdk/Network.antt =====
-- sdk/src/network.rs: the presets of each network. A URL is the text that it was parsed from; the
-- parsers of URLs and the text of `Error::UnknownNetwork` are foreign.
pub mod Constants
pub mod Presets
use rust_recall.Base.{
  ℕ, String, Option, none, some, Result, ok, err, panic, expect_ok, map_ok, transpose,
  if◌then◌else◌, ◌>>=◌ as ◌>>=ʳ◌,
}
use mathlib.Core.Option as Opt
use rust_recall.Base.Action.{Action, ◌>>=◌, lift, pure}
use rust_recall.Base.Text.{str_eq}
use rust_recall.Fvm.{FvmNetwork, Fvm}
use rust_recall.Provider.Util.{parse_address}
use rust_recall.Signer.Subnet.{SubnetId, parent, with_chain_id, parse_subnet_id}
use rust_recall.Sdk.Ipc.Manager.{EvmSubnet}
use Constants.{
  devnet_subnet_id, devnet_evm_rpc_url, devnet_evm_gateway_address, devnet_evm_registry_address,
  localnet_rpc_url, localnet_subnet_id, localnet_evm_rpc_url, localnet_object_api_url,
  localnet_evm_gateway_address, localnet_evm_registry_address, localnet_evm_supply_source_address,
  localnet_parent_evm_rpc_url, localnet_parent_evm_gateway_address,
  localnet_parent_evm_registry_address, testnet_rpc_url, testnet_object_api_url,
  testnet_evm_rpc_url, testnet_subnet_id, testnet_parent_evm_rpc_url,
  testnet_parent_evm_gateway_address, testnet_parent_evm_registry_address,
  testnet_evm_supply_source_address, testnet_evm_gateway_address, testnet_evm_registry_address,
}

-- In seconds
abbrev pub default_rpc_timeout : ℕ
default_rpc_timeout = 60

abbrev pub testnet_chain_id : ℕ
testnet_chain_id = 2481632

abbrev pub localnet_chain_id : ℕ
localnet_chain_id = 248163216

-- The parsers of `tendermint_rpc::Url` and of `reqwest::Url`
pub record Urls : Type 0 where
  pub rpc_url : String → Result String
  pub web_url : String → Result String

pub data Network : Type 0 where
  mainnet testnet localnet devnet : Network

-- `FromStr::from_str`, which `Deserialize` applies to a text
unfoldable pub parse_network : String → String → Result Network
parse_network unknown_network s =
    if str_eq s "mainnet"
    then ok mainnet
    else if str_eq s "testnet"
    then ok testnet
    else if str_eq s "localnet"
    then ok localnet
    else if str_eq s "devnet"
    then ok devnet
    else err unknown_network

-- `Display::fmt`
unfoldable pub display_network : Network → String
display_network mainnet = "mainnet"
display_network testnet = "testnet"
display_network localnet = "localnet"
display_network devnet = "devnet"

abbrev pub unwrap {ℓ} : {A : Type ℓ} → Result A → Result A
unwrap r = expect_ok r "called `Result::unwrap()` on an `Err` value"

-- `Network::init`, on the current network of the process
unfoldable pub init : Network → Action FvmNetwork (Unit {0})
init mainnet current = (ok tt, FvmNetwork.mainnet)
init _ current = (ok tt, FvmNetwork.testnet)

module _ (F : Fvm) where
  pub record ParentNetworkConfig : Type 0 where
    pub evm_rpc_url : String
    pub evm_gateway_address : F.Address
    pub evm_registry_address : F.Address
    pub evm_supply_source_address : F.Address

  pub record NetworkConfig : Type 0 where
    pub subnet_id : SubnetId F
    pub rpc_url : String
    pub object_api_url : String
    pub evm_rpc_url : String
    pub evm_gateway_address : F.Address
    pub evm_registry_address : F.Address
    pub parent_network_config : Option ParentNetworkConfig

  unfoldable pub subnet_config : NetworkConfig → EvmSubnet F
  subnet_config cfg = record {
    id = cfg.subnet_id;
    provider_http = cfg.evm_rpc_url;
    provider_timeout = some default_rpc_timeout;
    auth_token = none;
    registry_addr = cfg.evm_registry_address;
    gateway_addr = cfg.evm_gateway_address;
    supply_source = none;
  }

  unfoldable pub to_parent_subnet : NetworkConfig → ParentNetworkConfig → Result (EvmSubnet F)
  to_parent_subnet cfg above =
      map_ok
        (λ id. record {
          id = id;
          provider_http = above.evm_rpc_url;
          provider_timeout = some default_rpc_timeout;
          auth_token = none;
          registry_addr = above.evm_registry_address;
          gateway_addr = above.evm_gateway_address;
          supply_source = some above.evm_supply_source_address;
        })
        (expect_ok (parent F cfg.subnet_id) "subnet does not have parent")

  unfoldable pub parent_subnet_config : NetworkConfig → Result (Option (EvmSubnet F))
  unfolding to_parent_subnet
  parent_subnet_config cfg = transpose (Opt.map (to_parent_subnet cfg) cfg.parent_network_config)

  module _ (U : Urls) where
    testnet_parent : Result ParentNetworkConfig
    testnet_parent = unwrap (U.web_url testnet_parent_evm_rpc_url) >>=ʳ λ url.
        unwrap (parse_address F testnet_parent_evm_gateway_address) >>=ʳ λ gateway.
        unwrap (parse_address F testnet_parent_evm_registry_address) >>=ʳ λ registry.
        unwrap (parse_address F testnet_evm_supply_source_address) >>=ʳ λ source. ok (record {
          evm_rpc_url = url;
          evm_gateway_address = gateway;
          evm_registry_address = registry;
          evm_supply_source_address = source;
        })

    localnet_parent : Result ParentNetworkConfig
    localnet_parent = unwrap (U.web_url localnet_parent_evm_rpc_url) >>=ʳ λ url.
        unwrap (parse_address F localnet_parent_evm_gateway_address) >>=ʳ λ gateway.
        unwrap (parse_address F localnet_parent_evm_registry_address) >>=ʳ λ registry.
        unwrap (parse_address F localnet_evm_supply_source_address) >>=ʳ λ source. ok (record {
          evm_rpc_url = url;
          evm_gateway_address = gateway;
          evm_registry_address = registry;
          evm_supply_source_address = source;
        })

    -- What the presets below the parent's share: the parsers in the order of the fields.
    config_of :
        Result (SubnetId F)
        → String
        → String
        → String
        → String
        → String
        → Result (Option ParentNetworkConfig)
        → Result NetworkConfig
    config_of subnet rpc object evm gateway_text registry_text above = subnet >>=ʳ λ id.
        unwrap (U.rpc_url rpc) >>=ʳ λ rpc_url. unwrap (U.rpc_url object) >>=ʳ λ object_api_url.
        unwrap (U.web_url evm) >>=ʳ λ evm_rpc_url.
        unwrap (parse_address F gateway_text) >>=ʳ λ gateway.
        unwrap (parse_address F registry_text) >>=ʳ λ registry. above >>=ʳ λ parent_config.
        ok (record {
          subnet_id = id;
          rpc_url = rpc_url;
          object_api_url = object_api_url;
          evm_rpc_url = evm_rpc_url;
          evm_gateway_address = gateway;
          evm_registry_address = registry;
          parent_network_config = parent_config;
        })

    preset : Network → Result NetworkConfig
    unfolding config_of testnet_parent localnet_parent
    preset mainnet = panic "not yet implemented"
    preset testnet =
        config_of
          (map_ok (λ id. with_chain_id F id testnet_chain_id)
            (unwrap (parse_subnet_id F testnet_subnet_id)))
          testnet_rpc_url testnet_object_api_url testnet_evm_rpc_url testnet_evm_gateway_address
          testnet_evm_registry_address (map_ok some testnet_parent)
    preset localnet =
        config_of
          (map_ok (λ id. with_chain_id F id localnet_chain_id)
            (unwrap (parse_subnet_id F localnet_subnet_id)))
          localnet_rpc_url localnet_object_api_url localnet_evm_rpc_url localnet_evm_gateway_address
          localnet_evm_registry_address (map_ok some localnet_parent)
    preset devnet =
        config_of (unwrap (parse_subnet_id F devnet_subnet_id)) localnet_rpc_url
          localnet_object_api_url devnet_evm_rpc_url devnet_evm_gateway_address
          devnet_evm_registry_address (ok none)

    -- `Network::get_config`
    unfoldable pub get_config : Network → Action FvmNetwork NetworkConfig
    unfolding init preset
    get_config network = do _ ← init network; lift (preset network)
