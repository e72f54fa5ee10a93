-- ===== src/Sdk/Call/Commit.antt =====
-- Transactions of the sdk through a wallet and the JSON RPC provider, in commit mode.
use rust_recall.Base.{arith, ℕ, ◌≡◌, some, Result, ok}
use rust_recall.Base.Int.{ℤ}
use rust_recall.Base.Action.{lift, >>=-eq-ok}
use rust_recall.Actors.{Method, Params}
use rust_recall.Fvm.{Bytes, DeliverTx, Fvm}
use rust_recall.Provider.Message.{GasParams}
use rust_recall.Provider.Tx.{commit, TxResult}
use rust_recall.Provider.JsonRpc.{JsonRpcProvider, json_rpc_provider}
use rust_recall.Provider.JsonRpc.Rpc.{Client}
use rust_recall.Provider.JsonRpc.Commit.{perform-Reports}
use rust_recall.Signer.World.{World}
use rust_recall.Signer.Wallet.{Wallet, wallet_signer, send_transaction}
use rust_recall.Signer.Wallet.Sequence.{send_transaction-eq-ok}
use rust_recall.Sdk.Call.{transact}

module _ (F : Fvm) (C : Client F) (p : JsonRpcProvider) (wallet : Wallet F) {T : Type 0}
    (decode : DeliverTx → Result T) where
  send_transaction_commit-returned :
      (gas : GasParams) (w v : World C.Net) (to : F.Address) (value : ℤ) (n : ℕ) (params : Bytes)
      (tx : TxResult F T)
      → send_transaction F (json_rpc_provider F C p) commit decode wallet to value n params gas w
        ≡ (ok tx, v)
      → (returned : T) × (tx.returned ≡ some returned)
  unfolding json_rpc_provider
  send_transaction_commit-returned gas w v to value n params tx h =
      let (m, s, e) =
        send_transaction-eq-ok F (json_rpc_provider F C p) commit decode wallet to value n params
          gas w v tx h in
      let (_, _, _, receipt, returned, _, _, _, _, _, _, r) =
        perform-Reports F C decode p.chain_id _ commit s v.net tx e in
      (returned, ground arith)

  pub transact_commit-returned :
      (gas : GasParams) (w v : World C.Net) (to : F.Address) (value : ℤ) (method : Method)
      (params : Params F.Address) (tx : TxResult F T)
      → transact F
          (json_rpc_provider F C p)
          (wallet_signer F wallet)
          to
          value
          method
          params
          (record { broadcast_mode = commit; gas_params = gas })
          decode
          w
        ≡ (ok tx, v)
      → (returned : T) × (tx.returned ≡ some returned)
  unfolding transact wallet_signer
  transact_commit-returned gas w v to value method params tx h =
      let (bytes, t, e, k) =
        >>=-eq-ok (lift (F.serialize params))
          (λ bytes.
            (wallet_signer F wallet).send_transaction (json_rpc_provider F C p) to value
              (F.method_number method) bytes gas commit decode)
          w h in
      send_transaction_commit-returned gas t v to value (F.method_number method) bytes tx k
