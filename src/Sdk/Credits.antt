-- ===== src/Sdk/Credits.antt =====
-- sdk/src/credits.rs: buying, approving and reading credit.
pub mod Convert
use rust_recall.Base.{
  Option, none, some, Result, ok, unwrap_or, map_ok, transpose, ◌>>=◌ as ◌>>=ʳ◌, [],
}
use mathlib.Core.Option as Opt
use rust_recall.Base.Int.{ℤ, pos}
use rust_recall.Base.Action.{Action, ◌>>=◌, lift, pure}
use rust_recall.Actors.{
  get_stats, get_account, buy_credit, approve_credit, revoke_credit, get_account_params,
  buy_credit_params, approve_credit_params, revoke_credit_params,
}
use rust_recall.Fvm.{DeliverTx, FvmQueryHeight, Fvm}
use rust_recall.Provider.Message.{GasParams}
use rust_recall.Provider.Tx.{BroadcastMode, TxResult}
use rust_recall.Provider.Response.{decode_empty}
use rust_recall.Provider.Traits.{QueryProvider, Provider}
use rust_recall.Signer.World.{World}
use rust_recall.Signer.Traits.{Signer}
use rust_recall.Sdk.Codecs.{Codecs}
use rust_recall.Sdk.Call.{TxOptions, decode_with, read_actor, transact}
use rust_recall.Sdk.Credits.Convert.{
  Approval, Balance, CreditStats, default_balance, to_approval, to_balance, to_credit_stats,
}

pub record ApproveOptions : Type 0 where
  pub credit_limit : Option ℤ
  pub gas_fee_limit : Option ℤ
  pub ttl : Option ℤ
  pub broadcast_mode : BroadcastMode
  pub gas_params : GasParams

module _ (F : Fvm) (K : Codecs F) where
  -- The conversion runs inside the decoder, so that its panics are the decoder's.
  decode_stats : DeliverTx → Result CreditStats
  decode_stats tx =
      map_ok (to_credit_stats F K) (decode_with F K.stats "error parsing as CreditStats" tx)

  decode_balance : DeliverTx → Result (Option Balance)
  decode_balance tx = decode_with F K.account_option "error parsing as Option<Balance>" tx >>=ʳ λ v.
      transpose (Opt.map (to_balance F K) v)

  unfoldable pub decode_buy : DeliverTx → Result Balance
  decode_buy tx = decode_with F K.account "error parsing as Balance" tx >>=ʳ to_balance F K

  unfoldable pub decode_approve : DeliverTx → Result Approval
  decode_approve tx =
      map_ok (to_approval F K)
        (decode_with F K.credit_approval "error parsing as CreditApproval" tx)

  module _ {N : Type 0} where
    unfoldable pub stats : QueryProvider F N → FvmQueryHeight → Action N CreditStats
    unfolding decode_stats
    stats provider at = read_actor F provider F.blobs_actor get_stats [] at decode_stats

    unfoldable pub balance : QueryProvider F N → F.Address → FvmQueryHeight → Action N Balance
    unfolding decode_balance
    balance provider from at = do
      params ← lift (F.serialize (get_account_params from))
      account ← read_actor F provider F.blobs_actor get_account params at decode_balance
      pure (unwrap_or account default_balance)

    unfoldable pub buy :
        Provider F N
        → Signer F N
        → F.Address
        → ℤ
        → TxOptions
        → Action (World N) (TxResult F Balance)
    unfolding decode_buy
    buy provider signer to amount options =
        transact F provider signer F.blobs_actor amount buy_credit (buy_credit_params to) options
          decode_buy

    unfoldable pub approve :
        Provider F N
        → Signer F N
        → F.Address
        → F.Address
        → ApproveOptions
        → Action (World N) (TxResult F Approval)
    unfolding decode_approve
    approve provider signer from to options =
        transact F provider signer F.blobs_actor (pos 0) approve_credit
          (approve_credit_params from to none options.credit_limit options.gas_fee_limit
            options.ttl)
          (record { broadcast_mode = options.broadcast_mode; gas_params = options.gas_params })
          decode_approve

    unfoldable pub revoke :
        Provider F N
        → Signer F N
        → F.Address
        → F.Address
        → TxOptions
        → Action (World N) (TxResult F (Unit {0}))
    revoke provider signer from to options =
        transact F provider signer F.blobs_actor (pos 0) revoke_credit
          (revoke_credit_params from to none) options (decode_empty F)
