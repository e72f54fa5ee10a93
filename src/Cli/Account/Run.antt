-- ===== src/Cli/Account/Run.antt =====
-- cli/src/account.rs: `handle_account`.
use rust_recall.Base.{
  ℕ, ◌<>◌, String, [], ◌∷◌, Option, none, some, Result, ok, err, panic, unwrap_or, ok_or, ltb,
  if◌then◌else◌,
}
use rust_recall.Base.Action.{Action, ◌>>=◌, lift, pure, map_result}
use rust_recall.Base.Text.Trim.{contains}
use rust_recall.Fvm.{Fvm}
use rust_recall.Provider.Util.{get_eth_address}
use rust_recall.Provider.Traits.{Provider}
use rust_recall.Signer.Key.{random_secretkey}
use rust_recall.Signer.Subnet.{SubnetId, parent, display}
use rust_recall.Signer.Traits.{Signer}
use rust_recall.Signer.Wallet.{Wallet, ethereum, new_wallet, wallet_signer}
use rust_recall.Signer.Void.{void_signer}
use rust_recall.Sdk.Account as Account
use rust_recall.Sdk.Account.Funds as Funds
use rust_recall.Sdk.Credits as Credits
use rust_recall.Sdk.Credits.Convert.{Balance, default_balance}
use rust_recall.Sdk.Network.{NetworkConfig, ParentNetworkConfig}
use rust_recall.Cli.Json.{
  Json, text, num, eth_address, credit_balance, evm_receipt, json_object, insert_field,
}
use rust_recall.Cli.Shell.{Host, Shell, on_world, on_node, on_evm, print_json, print_tx_json}
use rust_recall.Cli.Options.{TxArgs, BroadcastMode, tx_options, get_address}
use rust_recall.Cli.Tx.{tx_signer, connect}
use rust_recall.Cli.Credit.{handle_credit}
use rust_recall.Cli.Account.{
  AccountCommands, create, info, deposit, withdraw, transfer, set_sponsor, unset_sponsor, credit,
  set_status, InfoArgs, FundArgs, TransferArgs, SetStatusArgs, get_status, get_subnet_config,
  get_parent_subnet_config,
}

-- An account that the chain does not know has the default balance; other errors panic.
unfoldable pub balance_or_default : Result Balance → Result Balance
balance_or_default (ok b) = ok b
balance_or_default (err e) = if contains e "actor not found" then ok default_balance else panic e
balance_or_default (panic e) = panic e

module _ (F : Fvm) (H : Host F) where
  -- `random_secretkey`, from the generator of the process
  unfoldable pub random_key : Action (Shell F H) F.SecretKey
  random_key s = let (sk, rng) = random_secretkey F H.keys s.rng in (ok sk, record s { rng = rng })

  -- Only a verbose command shows the FVM address.
  unfoldable pub with_fvm_address : ℕ → F.Address → Json F H.evm.Receipt → Json F H.evm.Receipt
  with_fvm_address verbosity address json =
      if ltb 0 verbosity
      then insert_field "fvm_address" (text (F.show_address address)) json
      else json

  unfoldable pub run_create : ℕ → Action (Shell F H) (Unit {0})
  unfolding random_key with_fvm_address
  run_create verbosity = do
    sk ← random_key
    address ← lift (F.eth_address_of_key (F.public_key sk))
    eth ← lift (get_eth_address F address)
    print_json F H (
        with_fvm_address verbosity address (
          json_object (
            ("private_key", text (H.keys.hex_encode (H.keys.key_bytes sk)))
            ∷ ("address", eth_address eth)
            ∷ [])))

  abbrev viewer : F.Address → Signer F H.client.Net
  viewer address = void_signer F address

  -- The balance on the parent, where the network has one
  unfoldable pub with_parent_balance :
      SubnetId F
      → Option (ParentNetworkConfig F)
      → InfoArgs F
      → F.Address
      → Json F H.evm.Receipt
      → Action (Shell F H) (Json F H.evm.Receipt)
  with_parent_balance subnet_id none args address json = pure json
  with_parent_balance subnet_id (some above) args address json = do
    config ← lift (get_parent_subnet_config F subnet_id above args.subnet)
    balance ← on_evm F H (Funds.supply_source_balance F H.evm (viewer address) config)
    pure (insert_field "parent_balance" (text (H.codecs.show_token balance)) json)

  unfoldable pub run_info :
      NetworkConfig F → ℕ → Provider F H.client.Net → InfoArgs F → Action (Shell F H) (Unit {0})
  unfolding with_fvm_address with_parent_balance
  run_info cfg verbosity provider args = do
    address ← on_world F H (get_address F args.address cfg.subnet_id)
    eth ← lift (get_eth_address F address)
    sequence ←
        on_node F H (Account.sequence F provider.queries (viewer address) args.address.height)
    account_balance ←
        on_evm F H (Funds.balance F H.evm (viewer address) (get_subnet_config F cfg args.subnet))
    credit_json ← on_node F H (
        map_result balance_or_default
          (Credits.balance F H.codecs provider.queries address args.address.height))
    json ← with_parent_balance cfg.subnet_id cfg.parent_network_config args address (
        with_fvm_address verbosity address (
          json_object (
            ("address", eth_address eth)
            ∷ ("sequence", num sequence)
            ∷ ("balance", text (H.codecs.show_token account_balance))
            ∷ ("credit", credit_balance credit_json)
            ∷ [])))
    print_json F H json

  no_parent : NetworkConfig F → String
  no_parent cfg = "address " <> display F cfg.subnet_id <> " does not have parent"

  abbrev signer_of : Wallet F → Signer F H.client.Net
  signer_of wallet = wallet_signer F wallet

  -- The signer of a deposit targets the parent subnet.
  unfoldable pub run_deposit : NetworkConfig F → FundArgs F → Action (Shell F H) (Unit {0})
  unfolding no_parent
  run_deposit cfg args = do
    above ← lift (ok_or cfg.parent_network_config (no_parent cfg))
    config ← lift (get_parent_subnet_config F cfg.subnet_id above args.subnet)
    parent_id ← lift (parent F cfg.subnet_id)
    wallet ← on_world F H (new_wallet F args.private_key ethereum parent_id)
    tx ← on_evm F H (
        Funds.deposit F H.evm H.evm_send (signer_of wallet) (unwrap_or args.to wallet.addr) config
          cfg.subnet_id args.amount)
    print_json F H (evm_receipt tx)

  unfoldable pub run_withdraw : NetworkConfig F → FundArgs F → Action (Shell F H) (Unit {0})
  run_withdraw cfg args = do
    wallet ← on_world F H (new_wallet F args.private_key ethereum cfg.subnet_id)
    tx ← on_evm F H (
        Funds.withdraw F H.evm H.evm_send (signer_of wallet) (unwrap_or args.to wallet.addr)
          (get_subnet_config F cfg args.subnet) args.amount)
    print_json F H (evm_receipt tx)

  unfoldable pub run_transfer : NetworkConfig F → TransferArgs F → Action (Shell F H) (Unit {0})
  run_transfer cfg args = do
    wallet ← on_world F H (new_wallet F args.private_key ethereum cfg.subnet_id)
    tx ← on_evm F H (
        Funds.transfer F H.evm H.evm_send (signer_of wallet) args.to
          (get_subnet_config F cfg args.subnet) args.amount)
    print_json F H (evm_receipt tx)

  -- Sets the sponsor, or unsets it without one.
  unfoldable pub run_sponsor :
      NetworkConfig F
      → Provider F H.client.Net
      → F.SecretKey
      → Option F.Address
      → BroadcastMode
      → TxArgs
      → Action (Shell F H) (Unit {0})
  run_sponsor cfg provider private_key sponsor mode tx_args = do
    signer ← on_world F H (tx_signer F private_key cfg.subnet_id tx_args provider)
    tx ←
        on_world F H (
          Account.set_sponsor F provider (wallet_signer F signer) sponsor (tx_options mode tx_args))
    print_tx_json F H tx

  unfoldable pub run_set_status :
      NetworkConfig F → Provider F H.client.Net → SetStatusArgs F → Action (Shell F H) (Unit {0})
  run_set_status cfg provider args = do
    signer ← on_world F H (tx_signer F args.private_key cfg.subnet_id args.tx_args provider)
    tx ← on_world F H (
        Account.set_status F provider (wallet_signer F signer) args.address (get_status args.status)
          (tx_options args.broadcast_mode args.tx_args))
    print_tx_json F H tx

  unfoldable pub run_account :
      NetworkConfig F
      → ℕ
      → Provider F H.client.Net
      → AccountCommands F
      → Action (Shell F H) (Unit {0})
  unfolding run_create run_info run_deposit run_withdraw run_transfer run_sponsor run_set_status
  run_account cfg verbosity provider create = run_create verbosity
  run_account cfg verbosity provider (info args) = run_info cfg verbosity provider args
  run_account cfg verbosity provider (deposit args) = run_deposit cfg args
  run_account cfg verbosity provider (withdraw args) = run_withdraw cfg args
  run_account cfg verbosity provider (transfer args) = run_transfer cfg args
  run_account cfg verbosity provider (set_sponsor args) =
      run_sponsor cfg provider args.private_key (some args.sponsor) args.broadcast_mode args.tx_args
  run_account cfg verbosity provider (unset_sponsor args) =
      run_sponsor cfg provider args.private_key none args.broadcast_mode args.tx_args
  run_account cfg verbosity provider (credit command) = handle_credit F H cfg command
  run_account cfg verbosity provider (set_status args) = run_set_status cfg provider args

  unfoldable pub handle_account :
      NetworkConfig F → ℕ → AccountCommands F → Action (Shell F H) (Unit {0})
  handle_account cfg verbosity command = do
    provider ← connect F H cfg none
    run_account cfg verbosity provider command
