-- ===== src/Sdk/Machine/Deploy.antt =====
-- Deploying a machine through a wallet and the JSON RPC provider.
use rust_recall.Base.{◌≡◌, Option, some, ok, unwrap_or, arith, ◌∙◌}
use rust_recall.Base.Int.{pos}
use rust_recall.Base.Action.{lift, >>=-ok}
use rust_recall.Actors.{Kind, Metadata, create_external_params, create_external}
use rust_recall.Fvm.{Fvm}
use rust_recall.Provider.Message.{GasParams}
use rust_recall.Provider.Tx.{commit, TxResult}
use rust_recall.Provider.JsonRpc.{JsonRpcProvider, json_rpc_provider}
use rust_recall.Provider.JsonRpc.Rpc.{Client}
use rust_recall.Provider.Traits.{Provider}
use rust_recall.Signer.World.{World}
use rust_recall.Signer.Traits.{Signer}
use rust_recall.Signer.Wallet.{Wallet, wallet_signer}
use rust_recall.Sdk.Codecs.{CreateReturn, Codecs}
use rust_recall.Sdk.Call.{transact}
use rust_recall.Sdk.Call.Commit.{transact_commit-returned}
use rust_recall.Sdk.Machine.{deploy_machine, deployed, decode_create}

module _ (F : Fvm) (C : Client F) (K : Codecs F) where
  deploy_machine-ok :
      {N : Type 0} (provider : Provider F N) (signer : Signer F N) (owner : Option F.Address)
      (kind : Kind) (metadata : Metadata) (gas : GasParams) (w v : World N)
      (tx : TxResult F CreateReturn) (created : CreateReturn)
      → transact F provider signer F.adm_actor
          (pos 0)
          create_external
          (create_external_params (unwrap_or owner signer.address) kind metadata)
          (record { broadcast_mode = commit; gas_params = gas })
          (decode_create F K)
          w
        ≡ (ok tx, v)
      → tx.returned ≡ some created
      → deploy_machine F K provider signer owner kind metadata gas w
        ≡ (ok (F.new_id created.actor_id, tx), v)
  unfolding deploy_machine deployed
  deploy_machine-ok provider signer owner kind metadata gas w v tx created h e =
      >>=-ok
        (transact F provider signer F.adm_actor (pos 0) create_external
          (create_external_params (unwrap_or owner signer.address) kind metadata)
          (record { broadcast_mode = commit; gas_params = gas }) (decode_create F K))
        (λ tx. lift (deployed F K tx)) w h
      ∙ ground arith

  -- Where the transaction of a wallet that creates a machine succeeds, through the JSON RPC
  -- provider, `deploy_machine` returns the address of
  -- the created actor: the data whose absence would be a panic is there.
  pub deploy_machine_total :
      (p : JsonRpcProvider) (wallet : Wallet F) (owner : Option F.Address) (kind : Kind)
      (metadata : Metadata) (gas : GasParams) (w v : World C.Net) (tx : TxResult F CreateReturn)
      → transact F
          (json_rpc_provider F C p)
          (wallet_signer F wallet)
          F.adm_actor
          (pos 0)
          create_external
          (create_external_params (unwrap_or owner wallet.addr) kind metadata)
          (record { broadcast_mode = commit; gas_params = gas })
          (decode_create F K)
          w
        ≡ (ok tx, v)
      → (created : CreateReturn) × (tx.returned ≡ some created)
        × (deploy_machine F K
              (json_rpc_provider F C p)
              (wallet_signer F wallet)
              owner
              kind
              metadata
              gas
              w
            ≡ (ok (F.new_id created.actor_id, tx), v))
  unfolding wallet_signer
  deploy_machine_total p wallet owner kind metadata gas w v tx h =
      let (created, r) =
        transact_commit-returned F C p wallet (decode_create F K) gas w v F.adm_actor (pos 0)
          create_external (create_external_params (unwrap_or owner wallet.addr) kind metadata) tx
          h in
      (
        created,
        r,
        deploy_machine-ok (json_rpc_provider F C p) (wallet_signer F wallet) owner kind metadata gas
            w v tx created h r,
      )
