-- ===== src/Tests/Commands.antt =====
-- Tests of what commands send, and of the tasks that share a wallet.
use rust_recall.Base.{ℕ, suc, ◌%◌, ◌<>◌, [], none, some, ok, err, ◌≡◌, refl, arith}
use rust_recall.Base.Int.{pos}
use rust_recall.Base.Text.{u64_mod, show}
use rust_recall.Actors.{buy_credit, buy_credit_params}
use rust_recall.Fvm.{signed}
use rust_recall.Provider.Response.{decode_bytes}
use rust_recall.Provider.Tx.{commit, async}
use rust_recall.Provider.Traits.{Provider}
use rust_recall.Provider.Query.{get_actor_state}
use rust_recall.Provider.JsonRpc.{json_rpc_provider}
use rust_recall.Signer.Wallet.Schedule.{run}
use rust_recall.Signer.Wallet.Schedule.Recorded.{recording, allocator}
use rust_recall.Signer.Wallet.Schedule.Refines.{Reach, run-Reach}
use rust_recall.Cli.Options as Options
use rust_recall.Cli.Options.{TxArgs, AddressArgs}
use rust_recall.Cli.Tx.Sequence.{
  send_command, send_command_given, send_command_pending, send_command_unknown,
}
use rust_recall.Cli.Credit.{BuyArgs}
use rust_recall.Tests.Samples.{chain, client, node, subnet, wallet, world}
use rust_recall.Tests.Signer.{two_tasks, schedule}
use rust_recall.Tests.Host.{no_tx_args}

abbrev provider : Provider chain ℕ
provider = json_rpc_provider chain client node

-- A node that knows no account
abbrev forgetful : Provider chain ℕ
forgetful = record provider {
  queries = record {
    query =
        λ q at n. (ok (record { code = 17; info = ""; key = []; value = []; height = 0 }), suc n);
  };
}

abbrev tx_args : TxArgs
tx_args = record no_tx_args { gas_limit = some 90; sequence = some 6 }

abbrev pending_args : TxArgs
pending_args = record no_tx_args { gas_limit = some 90 }

send_command_given_example :
    let sent =
      send_command chain provider 5 subnet tx_args 66
        (pos 1)
        buy_credit
        buy_credit_params
        Options.commit
        (decode_bytes chain)
        world in
    let performed = provider.perform (signed 6) commit (decode_bytes chain) 0 in
    (sent.0 ≡ performed.0) × (sent.1.net ≡ performed.1) × (sent.1.cells 1 ≡ 7 % u64_mod)
unfolding Options.get_mode
send_command_given_example =
    send_command_given chain provider 5 subnet tx_args 66 (pos 1) buy_credit buy_credit_params
      Options.commit (decode_bytes chain) world 6 refl refl refl (ground arith) refl

send_command_pending_example :
    let sent =
      send_command chain provider 5 subnet pending_args 66
        (pos 1)
        buy_credit
        buy_credit_params
        Options.async
        (decode_bytes chain)
        world in
    let performed = provider.perform (signed 7) async (decode_bytes chain) 1 in
    (sent.0 ≡ performed.0) × (sent.1.net ≡ performed.1) × (sent.1.cells 1 ≡ 8 % u64_mod)
unfolding Options.get_mode get_actor_state json_rpc_provider
send_command_pending_example =
    send_command_pending chain provider 5 subnet pending_args 66 (pos 1) buy_credit
      buy_credit_params Options.async (decode_bytes chain) world refl refl refl refl refl
      (ground arith) refl

send_command_unknown_example :
    let sent =
      send_command chain forgetful 5 subnet pending_args 66
        (pos 1)
        buy_credit
        buy_credit_params
        Options.commit
        (decode_bytes chain)
        world in
    (sent.0 ≡ err ("failed to init sequence; actor " <> show 2 <> " cannot be found"))
    × (sent.1.net ≡ 1)
unfolding get_actor_state
send_command_unknown_example =
    send_command_unknown chain forgetful 5 subnet pending_args 66 (pos 1) buy_credit
      buy_credit_params Options.commit (decode_bytes chain) world refl refl refl refl

abbrev pub buy_args : BuyArgs chain
buy_args = record {
  private_key = 5;
  to = none;
  amount = pos 1;
  broadcast_mode = Options.commit;
  tx_args = tx_args;
}

run-Reach_example : Reach chain wallet (allocator chain wallet two_tasks) (
    allocator chain wallet
      (run chain (recording chain provider) async (decode_bytes chain) wallet schedule two_tasks))
run-Reach_example = run-Reach chain provider async (decode_bytes chain) wallet schedule two_tasks
