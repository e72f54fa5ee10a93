-- ===== src/Examples/Credits.antt =====
-- sdk/examples/credits.rs. The waits for the network are left out.
use rust_recall.Base.{
  String, ◌<>◌, List, none, Result, err, length, ◌==◌, if◌then◌else◌, ◌>>=◌ as ◌>>=ʳ◌,
}
use rust_recall.Base.Action.{Action, ◌>>=◌, lift, pure}
use rust_recall.Base.Text.{show}
use rust_recall.Fvm.{committed, Fvm}
use rust_recall.Provider.Message.{GasParams, default_gas_params}
use rust_recall.Provider.Tx.{TxStatus, commit, hash}
use rust_recall.Provider.Traits.{Provider}
use rust_recall.Signer.Key.{parse_secret_key}
use rust_recall.Signer.Wallet.{Wallet, ethereum, new_wallet, init_sequence, wallet_signer}
use rust_recall.Sdk.Account.Funds as Account
use rust_recall.Sdk.Call.{TxOptions}
use rust_recall.Sdk.Credits as Credits
use rust_recall.Sdk.Credits.{ApproveOptions}
use rust_recall.Sdk.Ipc.Manager.{EvmSubnet}
use rust_recall.Sdk.Network.{NetworkConfig}
use rust_recall.Cli.Account.Run.{random_key}
use rust_recall.Cli.Shell.{Host, Shell, on_world, on_node, on_evm}
use rust_recall.Cli.Tx.{connect}
use rust_recall.Examples.Process.{Crates, Process, argument, println, on_shell, testnet_config}

-- A gas limit of 0, which asks for an estimate
abbrev pub estimated_gas : GasParams
estimated_gas = record default_gas_params { gas_limit = 0 }

abbrev pub buy_options : TxOptions
buy_options = record { broadcast_mode = commit; gas_params = estimated_gas }

abbrev pub approve_options : ApproveOptions
approve_options = record {
  credit_limit = none;
  gas_fee_limit = none;
  ttl = none;
  broadcast_mode = commit;
  gas_params = estimated_gas;
}

module _ (F : Fvm) (H : Host F) (X : Crates F H) where
  unfoldable pub key_argument : List String → Result F.SecretKey
  key_argument args =
      if length args == 2
      then argument args 1 >>=ʳ parse_secret_key F H.keys
      else err "Usage: [private key]"

  unfoldable pub print_gas_used : TxStatus F → Action (Shell F H) (Unit {0})
  print_gas_used (TxStatus.pending tx) = pure tt
  print_gas_used (TxStatus.committed receipt) =
      println F H ("Gas used: " <> show (X.gas_used receipt))

  -- The EVM of the network, without a timeout
  unfoldable pub evm_subnet : NetworkConfig F → EvmSubnet F
  evm_subnet cfg = record {
    id = cfg.subnet_id;
    provider_http = cfg.evm_rpc_url;
    provider_timeout = none;
    auth_token = none;
    registry_addr = cfg.evm_registry_address;
    gateway_addr = cfg.evm_gateway_address;
    supply_source = none;
  }

  module _ (provider : Provider F H.client.Net) where
    -- A transfer of nothing makes the chain know the account of the second wallet.
    unfoldable pub introduce : NetworkConfig F → Wallet F → Wallet F → Action (Shell F H) (Unit {0})
    unfolding evm_subnet
    introduce cfg wallet second = do
      tx ← on_evm F H (
          Account.transfer F H.evm H.evm_send (wallet_signer F {N = H.client.Net} wallet)
            second.addr (evm_subnet cfg) (X.from_whole 0))
      _ ← println F H ("Initialized second account - Transaction hash: " <> X.show_receipt_hash tx)
      _ ← on_world F H (init_sequence F wallet provider.queries)
      on_world F H (init_sequence F second provider.queries)

    unfoldable pub buy_credit : Wallet F → Action (Shell F H) (Unit {0})
    unfolding print_gas_used
    buy_credit wallet = do
      before ← on_node F H (Credits.balance F H.codecs provider.queries wallet.addr committed)
      _ ← println F H ("Initial credit balance: " <> X.debug_balance before)
      tx ← on_world F H (
          Credits.buy F H.codecs provider (wallet_signer F wallet) wallet.addr (X.from_whole 1)
            buy_options)
      _ ← println F H ("Bought credits - Transaction hash: 0x" <> X.show_hash (hash F tx))
      _ ← print_gas_used tx.status
      println F H ("New balance: " <> X.debug_bought tx.returned)

    unfoldable pub approve_second : Wallet F → Wallet F → Action (Shell F H) (Unit {0})
    unfolding print_gas_used
    approve_second wallet second = do
      tx ← on_world F H (
          Credits.approve F H.codecs provider (wallet_signer F wallet) wallet.addr second.addr
            approve_options)
      _ ← println F H ("Approved credits - Transaction hash: 0x" <> X.show_hash (hash F tx))
      _ ← print_gas_used tx.status
      _ ← println F H ("Approval details: " <> X.debug_approval tx.returned)
      balance ← on_node F H (Credits.balance F H.codecs provider.queries second.addr committed)
      _ ← println F H ("Second wallet credit balance: " <> X.debug_balance balance)
      println F H ("Second wallet credit approvals: " <> X.debug_approvals balance.approvals_from)

    unfoldable pub revoke_second : Wallet F → Wallet F → Action (Shell F H) (Unit {0})
    unfolding print_gas_used
    revoke_second wallet second = do
      tx ← on_world F H (
          Credits.revoke F H.codecs provider (wallet_signer F wallet) wallet.addr second.addr
            buy_options)
      _ ← println F H ("Revoked credits - Transaction hash: 0x" <> X.show_hash (hash F tx))
      _ ← print_gas_used tx.status
      first ← on_node F H (Credits.balance F H.codecs provider.queries wallet.addr committed)
      println F H
          ("First wallet approvals after revocation: " <> X.debug_approvals first.approvals_from)

    unfoldable pub show_final : Wallet F → Wallet F → Action (Shell F H) (Unit {0})
    show_final wallet second = do
      first ← on_node F H (Credits.balance F H.codecs provider.queries wallet.addr committed)
      _ ← println F H ("Final main wallet credit balance: " <> X.debug_balance first)
      last ← on_node F H (Credits.balance F H.codecs provider.queries second.addr committed)
      println F H ("Final second wallet credit balance: " <> X.debug_balance last)

    -- The three transactions of the first wallet
    unfoldable pub trade : Wallet F → Wallet F → Action (Shell F H) (Unit {0})
    unfolding buy_credit approve_second revoke_second show_final
    trade wallet second = do
      _ ← buy_credit wallet
      _ ← approve_second wallet second
      _ ← revoke_second wallet second
      show_final wallet second

  unfoldable pub credits_example : F.SecretKey → NetworkConfig F → Action (Shell F H) (Unit {0})
  unfolding introduce
  credits_example pk cfg = do
    provider ← connect F H cfg none
    wallet ← on_world F H (new_wallet F pk ethereum cfg.subnet_id)
    _ ← on_world F H (init_sequence F wallet provider.queries)
    second_key ← random_key F H
    second ← on_world F H (new_wallet F second_key ethereum cfg.subnet_id)
    _ ← println F H ("Main wallet address: " <> F.show_address wallet.addr)
    _ ← println F H ("Second wallet address: " <> F.show_address second.addr)
    _ ← introduce provider cfg wallet second
    trade provider wallet second

  unfoldable pub main : List String → Action (Process F H) (Unit {0})
  main args = do
    pk ← lift (key_argument args)
    cfg ← testnet_config F H
    on_shell F H (credits_example pk cfg)
