-- ===== src/Sdk/Call.antt =====
-- The two ways in which the sdk reaches an actor: a read-only message, and a transaction. Every
-- method of sdk/src/{machine,credits,account,storage,subnet}.rs is one of them.
pub mod Commit
use rust_recall.Base.{String, ◌<>◌, Result, map_err, ◌>>=◌ as ◌>>=ʳ◌}
use rust_recall.Base.Int.{ℤ}
use rust_recall.Base.Action.{Action, ◌>>=◌, lift, pure}
use rust_recall.Actors.{Method, Params}
use rust_recall.Fvm.{Bytes, DeliverTx, FvmQueryHeight, Fvm}
use rust_recall.Provider.Message.{GasParams, local_message}
use rust_recall.Provider.Tx.{BroadcastMode, TxResult}
use rust_recall.Provider.Traits.{QueryProvider, Provider}
use rust_recall.Provider.Query.{call_actor}
use rust_recall.Provider.Response.{decode_bytes}
use rust_recall.Signer.World.{World}
use rust_recall.Signer.Traits.{Signer}

-- `broadcast_mode` and `gas_params`, which every options struct of a transaction has.
pub record TxOptions : Type 0 where
  pub broadcast_mode : BroadcastMode
  pub gas_params : GasParams

module _ (F : Fvm) where
  -- `decode_bytes`, then `from_slice` with its error's text
  unfoldable pub decode_with : {T : Type 0} → (Bytes → Result T) → String → DeliverTx → Result T
  decode_with from_slice message tx =
      decode_bytes F tx >>=ʳ λ bytes. map_err (from_slice bytes) (λ e. message <> ": " <> e)

  module _ {N T : Type 0} where
    unfoldable pub read_actor :
        QueryProvider F N
        → F.Address
        → Method
        → Bytes
        → FvmQueryHeight
        → (DeliverTx → Result T)
        → Action N T
    read_actor provider to method params at decode = do
      response ←
          call_actor F provider (local_message F to (F.method_number method) params) at decode
      pure response.value

    unfoldable pub transact :
        Provider F N
        → Signer F N
        → F.Address
        → ℤ
        → Method
        → Params F.Address
        → TxOptions
        → (DeliverTx → Result T)
        → Action (World N) (TxResult F T)
    transact provider signer to value method params options decode = do
      bytes ← lift (F.serialize params)
      signer.send_transaction provider to value (F.method_number method) bytes options.gas_params
          options.broadcast_mode decode
