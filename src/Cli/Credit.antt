-- ===== src/Cli/Credit.antt =====
-- cli/src/credit.rs: buying credit, approvals, and the statistics.
use rust_recall.Base.{[], ◌∷◌, Option, none, unwrap_or}
use rust_recall.Base.HashSet.{HashSet}
use rust_recall.Base.Int.{ℤ}
use rust_recall.Base.Action.{Action, ◌>>=◌}
use rust_recall.Fvm.{Fvm}
use rust_recall.Provider.Traits.{Provider}
use rust_recall.Signer.Wallet.{wallet_signer}
use rust_recall.Sdk.Credits as Credits
use rust_recall.Sdk.Credits.Convert.{CreditStats}
use rust_recall.Sdk.Network.{NetworkConfig}
use rust_recall.Cli.Json.{Json, text, num, json_object}
use rust_recall.Cli.Shell.{Host, Shell, on_world, on_node, print_json, print_tx_json}
use rust_recall.Cli.Options.{BroadcastMode, get_mode, TxArgs, to_tx_params, tx_options, AddressArgs}
use rust_recall.Cli.Tx.{tx_signer, connect}

module _ (F : Fvm) where
  pub record BuyArgs : Type 0 where
    pub private_key : F.SecretKey
    pub to : Option F.Address
    pub amount : ℤ
    pub broadcast_mode : BroadcastMode
    pub tx_args : TxArgs

  pub record ApproveArgs : Type 0 where
    pub private_key : F.SecretKey
    pub to : F.Address
    pub caller : Option (HashSet F.Address)
    pub credit_limit : Option ℤ
    pub gas_fee_limit : Option ℤ
    pub ttl : Option ℤ
    pub broadcast_mode : BroadcastMode
    pub tx_args : TxArgs

  pub record RevokeArgs : Type 0 where
    pub private_key : F.SecretKey
    pub to : F.Address
    pub caller : Option F.Address
    pub broadcast_mode : BroadcastMode
    pub tx_args : TxArgs

  pub data CreditCommands : Type 0 where
    stats : AddressArgs F → CreditCommands
    buy : BuyArgs → CreditCommands
    approve : ApproveArgs → CreditCommands
    revoke : RevokeArgs → CreditCommands

  module _ (H : Host F) where
    stats_json : CreditStats → Json F H.evm.Receipt
    stats_json s = json_object (
        ("balance", text s.balance)
        ∷ ("credit_sold", text s.credit_sold)
        ∷ ("credit_committed", text s.credit_committed)
        ∷ ("credit_debited", text s.credit_debited)
        ∷ ("token_credit_rate", text (H.show_rate s.token_credit_rate))
        ∷ ("num_accounts", num s.num_accounts)
        ∷ [])

    unfoldable pub run_credit :
        NetworkConfig F → Provider F H.client.Net → CreditCommands → Action (Shell F H) (Unit {0})
    unfolding stats_json
    run_credit cfg provider (stats args) = do
      s ← on_node F H (Credits.stats F H.codecs provider.queries args.height)
      print_json F H (stats_json s)
    run_credit cfg provider (buy args) = do
      signer ← on_world F H (tx_signer F args.private_key cfg.subnet_id args.tx_args provider)
      tx ← on_world F H (
          Credits.buy F H.codecs provider (wallet_signer F signer) (unwrap_or args.to signer.addr)
            args.amount (tx_options args.broadcast_mode args.tx_args))
      print_tx_json F H tx
    run_credit cfg provider (approve args) = do
      signer ← on_world F H (tx_signer F args.private_key cfg.subnet_id args.tx_args provider)
      tx ← on_world F H (
          Credits.approve F H.codecs provider (wallet_signer F signer) signer.addr args.to (record {
            credit_limit = args.credit_limit;
            gas_fee_limit = args.gas_fee_limit;
            ttl = args.ttl;
            broadcast_mode = get_mode args.broadcast_mode;
            gas_params = (to_tx_params args.tx_args).gas_params;
          }))
      print_tx_json F H tx
    run_credit cfg provider (revoke args) = do
      signer ← on_world F H (tx_signer F args.private_key cfg.subnet_id args.tx_args provider)
      tx ← on_world F H (
          Credits.revoke F H.codecs provider (wallet_signer F signer) signer.addr args.to
            (tx_options args.broadcast_mode args.tx_args))
      print_tx_json F H tx

    unfoldable pub handle_credit : NetworkConfig F → CreditCommands → Action (Shell F H) (Unit {0})
    handle_credit cfg command = do provider ← connect F H cfg none; run_credit cfg provider command
