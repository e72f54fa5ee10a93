-- ===== src/Tests/Sdk.antt =====
-- Tests of the sdk: machines and credits.
use rust_recall.Base.{ℕ, ◌≤◌, ◌≡◌, refl, none, some, ok, [], ◌∷◌, if◌then◌else◌, ◌==◌}
use rust_recall.Base.Int.{pos}
use rust_recall.Actors.{create_external, create_external_params, timehub}
use rust_recall.Provider.Tx.{commit, TxResult, committed_result}
use rust_recall.Provider.Traits.{Provider}
use rust_recall.Provider.JsonRpc.{json_rpc_provider}
use rust_recall.Signer.World.{World}
use rust_recall.Signer.Traits.{Signer}
use rust_recall.Signer.Wallet.{
  new_message, with_gas_limit, sign_and_perform, send_transaction, wallet_signer,
}
use rust_recall.Provider.Message.{set_limits}
use rust_recall.Provider.Response.{decode_bytes}
use rust_recall.Sdk.Codecs.{CreateReturn, PushReturn}
use rust_recall.Sdk.Call.{decode_with, transact}
use rust_recall.Sdk.Machine.{Machine, decode_create, deploy_machine}
use rust_recall.Sdk.Machine.Deploy.{deploy_machine_total}
use rust_recall.Sdk.Timehub.{decode_push_return, push}
use rust_recall.Sdk.Timehub.Push.{push_commit-returned}
use rust_recall.Sdk.Credits.Convert.{
  Balance, default_balance, debit_epoch, to_approvals, to_balance,
}
use rust_recall.Tests.Samples.{chain, client, node, wallet, world, gas}
use rust_recall.Tests.Accounts.{codecs, account}

abbrev provider : Provider chain ℕ
provider = json_rpc_provider chain client node

abbrev signer : Signer chain ℕ
signer = wallet_signer chain wallet

-- The world after one transaction of the wallet
abbrev after : World ℕ
after = record world { net = 5; cells = λ j. if 0 == j then 7 else 6 }

abbrev created : TxResult chain CreateReturn
created = committed_result chain 9 (some (record { actor_id = 1 }))

creates :
    transact chain provider signer 17
      (pos 0)
      create_external
      (create_external_params 1 timehub [])
      (record { broadcast_mode = commit; gas_params = gas })
      (decode_create chain codecs)
      world
    ≡ (ok created, after)
unfolding transact json_rpc_provider wallet_signer decode_create send_transaction with_gas_limit
    new_message set_limits sign_and_perform decode_with decode_bytes
creates = refl

deploy_machine_total_example :
    (c : CreateReturn) × (created.returned ≡ some c)
    × (deploy_machine chain codecs provider signer none timehub [] gas world
        ≡ (ok (c.actor_id, created), after))
deploy_machine_total_example =
    deploy_machine_total chain client codecs node wallet none timehub [] gas world after created
      creates

abbrev hub : Machine chain
hub = record { address = 40 }

abbrev pushed : TxResult chain (PushReturn ℕ)
pushed = committed_result chain 9 (some (record { root = 1; index = 1 }))

pushes :
    push chain codecs hub provider signer 1
      (7 ∷ 8 ∷ [])
      (record { broadcast_mode = commit; gas_params = gas })
      world
    ≡ (ok pushed, after)
unfolding push transact json_rpc_provider wallet_signer decode_push_return send_transaction
    with_gas_limit new_message set_limits sign_and_perform decode_with decode_bytes
pushes = refl

push_commit-returned_example :
    (2 ≤ 512000) × ((returned : PushReturn ℕ) × (pushed.returned ≡ some returned))
push_commit-returned_example =
    push_commit-returned chain codecs client node wallet hub 1 (7 ∷ 8 ∷ []) gas world after pushed
      pushes

abbrev read_balance : Balance
read_balance = record default_balance {
  credit_free = "1";
  credit_committed = "1";
  last_debit_epoch = none;
  gas_allowance = "1";
}

converts : to_balance chain codecs account ≡ ok read_balance
unfolding to_balance to_approvals debit_epoch
converts = refl
