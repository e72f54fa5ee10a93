-- ===== src/Sdk/Timehub/Push.antt =====
-- What a push into a timehub needs, and what it returns.
use rust_recall.Base.{◌≡◌, ◌≤◌, some, ok, arith, length}
use rust_recall.Base.Int.{pos}
use rust_recall.Actors.{push as push_method, push_params}
use rust_recall.Fvm.{Bytes, Fvm}
use rust_recall.Provider.Message.{GasParams}
use rust_recall.Provider.Tx.{commit, TxResult}
use rust_recall.Provider.Traits.{Provider}
use rust_recall.Provider.JsonRpc.{JsonRpcProvider, json_rpc_provider}
use rust_recall.Provider.JsonRpc.Rpc.{Client}
use rust_recall.Signer.World.{World}
use rust_recall.Signer.Traits.{Signer}
use rust_recall.Signer.Wallet.{Wallet, wallet_signer}
use rust_recall.Sdk.Codecs.{PushReturn, Codecs}
use rust_recall.Sdk.Call.{TxOptions, transact}
use rust_recall.Sdk.Call.Commit.{transact_commit-returned}
use rust_recall.Sdk.Machine.{Machine}
use rust_recall.Sdk.Timehub.{max_acc_payload_size, decode_push_return, push}

module _ (F : Fvm) (K : Codecs F) where
  push-eq-ok :
      {N : Type 0} (timehub : Machine F) (provider : Provider F N) (signer : Signer F N)
      (from : F.Address) (payload : Bytes) (options : TxOptions) (w v : World N)
      (tx : TxResult F (PushReturn F.Cid))
      → push F K timehub provider signer from payload options w ≡ (ok tx, v)
      → (length payload ≤ max_acc_payload_size)
        × (transact F provider signer timehub.address
              (pos 0)
              push_method
              (push_params payload from)
              options
              (decode_push_return F K)
              w
            ≡ (ok tx, v))
  unfolding push
  push-eq-ok timehub provider signer from payload options w v tx h = ground arith

  -- A push that succeeds in commit mode, through a wallet and the JSON RPC provider, has pushed at
  -- most 512000 bytes and returns the new root and the index.
  pub push_commit-returned :
      (C : Client F) (p : JsonRpcProvider) (wallet : Wallet F) (timehub : Machine F)
      (from : F.Address) (payload : Bytes) (gas : GasParams) (w v : World C.Net)
      (tx : TxResult F (PushReturn F.Cid))
      → push F K timehub
          (json_rpc_provider F C p)
          (wallet_signer F wallet)
          from
          payload
          (record { broadcast_mode = commit; gas_params = gas })
          w
        ≡ (ok tx, v)
      → (length payload ≤ 512000) × ((returned : PushReturn F.Cid) × (tx.returned ≡ some returned))
  push_commit-returned C p wallet timehub from payload gas w v tx h =
      let (l, e) =
        push-eq-ok timehub (json_rpc_provider F C p) (wallet_signer F wallet) from payload
          (record { broadcast_mode = commit; gas_params = gas }) w v tx h in
      (
        l,
        transact_commit-returned F C p wallet (decode_push_return F K) gas w v timehub.address
            (pos 0) push_method (push_params payload from) tx e,
      )
