-- ===== src/Cli/Subnet.antt =====
-- cli/src/subnet.rs: the chain ID, and the configuration of the subnet.
use rust_recall.Base.{ℕ, String, [], ◌∷◌, Option, none, some, Result, ok, map_ok}
use rust_recall.Base.Int.{ℤ}
use rust_recall.Base.Action.{Action, ◌>>=◌, lift}
use rust_recall.Fvm.{Fvm}
use rust_recall.Provider.Traits.{Provider}
use rust_recall.Provider.Util.{get_eth_address}
use rust_recall.Signer.Wallet.{wallet_signer}
use rust_recall.Sdk.Codecs.{RecallConfig}
use rust_recall.Sdk.Config as Config
use rust_recall.Sdk.Network.{NetworkConfig}
use rust_recall.Cli.Json.{Json, text, num, int, json_object}
use rust_recall.Cli.Shell.{Host, Shell, on_world, on_node, print_json, print_tx_json}
use rust_recall.Cli.Options.{BroadcastMode, get_mode, TxArgs, to_tx_params, tx_options, AddressArgs}
use rust_recall.Cli.Tx.{tx_signer, connect}

module _ (F : Fvm) where
  pub record SetConfigAdminArgs : Type 0 where
    pub private_key : F.SecretKey
    pub admin_address : F.Address
    pub broadcast_mode : BroadcastMode
    pub tx_args : TxArgs

  pub record SetConfigArgs : Type 0 where
    pub private_key : F.SecretKey
    pub blob_capacity : ℕ
    pub token_credit_rate : ℤ
    pub blob_credit_debit_interval : ℤ
    pub blob_min_ttl : ℤ
    pub blob_default_ttl : ℤ
    pub broadcast_mode : BroadcastMode
    pub tx_args : TxArgs

  -- `ConfigCommands` stands within `SubnetCommands`.
  pub data SubnetCommands : Type 0 where
    chain_id : SubnetCommands
    set_admin : SetConfigAdminArgs → SubnetCommands
    get_admin : AddressArgs F → SubnetCommands
    set : SetConfigArgs → SubnetCommands
    get : AddressArgs F → SubnetCommands

  module _ (H : Host F) where
    -- The administrator's Ethereum address, or a text that says that there is none
    unfoldable pub admin_text : Option F.Address → Result String
    admin_text none = ok "not set!"
    admin_text (some admin) = map_ok H.codecs.show_eth_address (get_eth_address F admin)

    config_json : RecallConfig → Json F H.evm.Receipt
    config_json c = json_object (
        ("blob_capacity", num c.blob_capacity)
        ∷ ("token_credit_rate", text (H.show_rate c.token_credit_rate))
        ∷ ("blob_credit_debit_interval", int c.blob_credit_debit_interval)
        ∷ ("blob_min_ttl", int c.blob_min_ttl)
        ∷ ("blob_default_ttl", int c.blob_default_ttl)
        ∷ [])

    unfoldable pub run_subnet :
        NetworkConfig F → Provider F H.client.Net → SubnetCommands → Action (Shell F H) (Unit {0})
    unfolding admin_text config_json
    run_subnet cfg provider chain_id = do
      id ← on_node F H (Config.chain_id F H.client)
      print_json F H (json_object (("chain_id", text id) ∷ []))
    run_subnet cfg provider (set_admin args) = do
      signer ← on_world F H (tx_signer F args.private_key cfg.subnet_id args.tx_args provider)
      tx ← on_world F H (
          Config.set_config_admin F provider (wallet_signer F signer) args.admin_address
            (tx_options args.broadcast_mode args.tx_args))
      print_tx_json F H tx
    run_subnet cfg provider (get_admin args) = do
      found ← on_node F H (Config.get_config_admin F H.codecs provider.queries args.height)
      admin ← lift (admin_text found)
      print_json F H (json_object (("admin", text admin) ∷ []))
    run_subnet cfg provider (set args) = do
      signer ← on_world F H (tx_signer F args.private_key cfg.subnet_id args.tx_args provider)
      tx ← on_world F H (
          Config.set_config F provider (wallet_signer F signer) (record {
            blob_capacity = args.blob_capacity;
            token_credit_rate = args.token_credit_rate;
            blob_credit_debit_interval = args.blob_credit_debit_interval;
            blob_min_ttl = args.blob_min_ttl;
            blob_default_ttl = args.blob_default_ttl;
            broadcast_mode = get_mode args.broadcast_mode;
            gas_params = (to_tx_params args.tx_args).gas_params;
          }))
      print_tx_json F H tx
    run_subnet cfg provider (get args) = do
      config ← on_node F H (Config.get_config F H.codecs provider.queries args.height)
      print_json F H (config_json config)

    unfoldable pub handle_subnet : NetworkConfig F → SubnetCommands → Action (Shell F H) (Unit {0})
    handle_subnet cfg command = do provider ← connect F H cfg none; run_subnet cfg provider command
