-- ===== src/Tests/Programs.antt =====
-- Tests of whole programs: what they broadcast and sign, and the programs of sdk/examples.
use rust_recall.Base.{arith, ℕ, suc, String, List, [], ◌∷◌, ◌++◌, ok, ◌≡◌, refl, IsFailure, arith}
use rust_recall.Base.Int.{pos}
use rust_recall.Fvm.{Bytes, FvmNetwork}
use rust_recall.Provider.Util.{get_eth_address}
use rust_recall.Provider.JsonRpc.{json_rpc_provider}
use rust_recall.Provider.JsonRpc.Rpc.{Client}
use rust_recall.Provider.JsonRpc.Broadcasts.{CountsBroadcasts}
use rust_recall.Provider.Traits.{Provider}
use rust_recall.Signer.Key.{parse_secret_key, random_secretkey}
use rust_recall.Signer.Wallet.{Wallet, ethereum, new_wallet}
use rust_recall.Cli.Account.{credit}
use rust_recall.Cli.Account.Create.{account_json, run_create-new_wallet}
use rust_recall.Cli.Account.Run.{run_create}
use rust_recall.Cli.Broadcasts.Main.{Broadcast, main-Broadcast}
use rust_recall.Cli.Credit.{buy}
use rust_recall.Cli.Main.{Cli, account, main}
use rust_recall.Cli.Shell.{Host, Shell, line, print_json}
use rust_recall.Examples.BucketAdd as BucketAdd
use rust_recall.Examples.Ends.{main-IsFailure}
use rust_recall.Examples.Process.{Crates}
use rust_recall.Tests.Samples.{chain, client, node, subnet, world}
use rust_recall.Tests.Host.{host, shell, keys-IsKeys}
use rust_recall.Tests.Cli.{new_account}
use rust_recall.Tests.Commands.{buy_args}

abbrev provider : Provider chain ℕ
provider = json_rpc_provider chain client node

-- The state of this network is the number of transactions that were broadcast.
abbrev pub counting_client : Client chain
counting_client = record client {
  abci_query = λ b h n. ((client.abci_query b h n).0, n);
  tx = λ b prove n. ((client.tx b prove n).0, n);
  header = λ h n. ((client.header h n).0, n);
  block_results = λ h n. ((client.block_results h n).0, n);
  http = λ r n. ((client.http r n).0, n);
  status = λ n. (ok "chain", n);
}

abbrev pub counting_host : Host chain
counting_host = record host { client = counting_client }

abbrev pub counting_shell : Shell chain counting_host
counting_shell = record { world = world; evm = 0; rng = 3; printed = [] }

counting_laws : CountsBroadcasts chain counting_client (λ n. n)
counting_laws = record {
  async_counts = λ b n. omega arith;
  sync_counts = λ b n. omega arith;
  commit_counts = λ b n. omega arith;
  query_keeps = λ b h n. refl;
  tx_keeps = λ b prove n. refl;
  header_keeps = λ h n. refl;
  block_results_keeps = λ h n. refl;
  http_keeps = λ r n. refl;
  status_keeps = λ n. refl;
  retry_keeps = λ seconds m h. h;
}

abbrev pub purchase : Cli chain
purchase = record new_account { command = account (credit (buy buy_args)) }

main-Broadcast_example :
    let done = main chain counting_host purchase (FvmNetwork.mainnet, counting_shell) in
    Broadcast 1 done.0 0 (done.1.1).world.net
main-Broadcast_example =
    main-Broadcast chain counting_host (λ n. n) counting_laws purchase FvmNetwork.mainnet
      counting_shell

abbrev after_create : Shell chain host
after_create = record shell { rng = 4; printed = line "json" ∷ [] }

creates : run_create chain host 1 shell ≡ (ok tt, after_create)
unfolding run_create get_eth_address print_json random_secretkey
creates = refl

run_create-new_wallet_example :
    (w : Wallet chain) × (eth : Bytes) × (l : String) × (host.to_string_pretty
        (account_json chain host 1 w.sk w.addr eth)
      ≡ ok l)
    × (line "json" ∷ [] ≡ [] ++ line l ∷ [])
    × (parse_secret_key chain host.keys (host.keys.hex_encode (host.keys.key_bytes w.sk)) ≡ ok w.sk)
    × ((new_wallet chain w.sk ethereum subnet world).0 ≡ ok w)
    × (get_eth_address chain w.addr ≡ ok eth)
run_create-new_wallet_example =
    run_create-new_wallet chain host keys-IsKeys 1 shell after_create subnet world creates

abbrev crates : Crates chain host
crates = record {
  eth_address_of_key = λ k. ok k;
  address_of_eth = λ b. 2;
  from_whole = λ n. pos n;
  show_hash = λ h. "hash";
  show_receipt_hash = λ r. "hash";
  hex_receipt_hash = λ r. "hash";
  gas_used = λ r. 1;
  debug_balance = λ b. "balance";
  debug_bought = λ b. "bought";
  debug_approval = λ a. "approval";
  debug_approvals = λ a. "approvals";
  fill = λ n rng. (n ∷ [], suc rng);
  temp_file = λ content. ok "path";
  new_file = ok "path";
  open_rw = λ path. ok tt;
  write_all = λ chunk content. (ok tt, content ++ chunk);
  read_exact = λ n content. ok content;
}

abbrev second_wallet : Wallet chain
second_wallet = record { addr = 4; sk = 6; subnet_id = subnet; sequence = 1 }

abbrev bucket_add : List String
bucket_add = "bucket_add" ∷ "aaab" ∷ []

main-IsFailure_example :
    let done = BucketAdd.main chain host crates bucket_add (FvmNetwork.mainnet, shell) in
    IsFailure done.0 × (done.1 ≡ (FvmNetwork.mainnet, shell))
main-IsFailure_example = main-IsFailure chain host crates bucket_add (FvmNetwork.mainnet, shell)
