-- ===== src/Sdk/Account.antt =====
-- sdk/src/account.rs: the sequence of an account, and its sponsor and status on the chain.
pub mod Funds
use rust_recall.Base.{ℕ, Option, some, none}
use rust_recall.Base.Int.{pos}
use rust_recall.Base.Action.{Action, ◌>>=◌, pure}
use rust_recall.Actors.{
  TtlStatus, set_account_sponsor, set_account_status, set_sponsor_params, set_account_status_params,
}
use rust_recall.Fvm.{FvmQueryHeight, Fvm}
use rust_recall.Provider.Tx.{TxResult}
use rust_recall.Provider.Response.{decode_empty}
use rust_recall.Provider.Traits.{QueryProvider, Provider}
use rust_recall.Provider.Query.{get_actor_state}
use rust_recall.Signer.World.{World}
use rust_recall.Signer.Traits.{Signer}
use rust_recall.Sdk.Call.{TxOptions, transact}

module _ (F : Fvm) {N : Type 0} where
  unfoldable pub sequence : QueryProvider F N → Signer F N → FvmQueryHeight → Action N ℕ
  sequence provider signer at = do
    response ← get_actor_state F provider signer.address at
    pure (elim response.value [ some (id, state) ↦ state.sequence | none ↦ 0 ])

  unfoldable pub set_sponsor :
      Provider F N
      → Signer F N
      → Option F.Address
      → TxOptions
      → Action (World N) (TxResult F (Unit {0}))
  set_sponsor provider signer sponsor options =
      transact F provider signer F.blobs_actor (pos 0) set_account_sponsor
        (set_sponsor_params signer.address sponsor) options (decode_empty F)

  unfoldable pub set_status :
      Provider F N
      → Signer F N
      → F.Address
      → TtlStatus
      → TxOptions
      → Action (World N) (TxResult F (Unit {0}))
  set_status provider signer account status options =
      transact F provider signer F.blobs_actor (pos 0) set_account_status
        (set_account_status_params account status) options (decode_empty F)
