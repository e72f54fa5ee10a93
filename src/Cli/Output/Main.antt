-- ===== src/Cli/Output/Main.antt =====
-- The commands of buckets and accounts, and `main`: what is written to standard output.
use rust_recall.Base.{ℕ, refl, Option, none, some}
use rust_recall.Fvm.{FvmNetwork, Fvm}
use rust_recall.Base.Action.{◌>>=◌, lift}
use rust_recall.Provider.Traits.{Provider}
use rust_recall.Signer.Subnet.{SubnetId}
use rust_recall.Sdk.Network.{NetworkConfig, ParentNetworkConfig, get_config}
use rust_recall.Cli.Options.{get_network}
use rust_recall.Cli.Json.{Json}
use rust_recall.Cli.Shell.{Host, Shell}
use rust_recall.Cli.Bucket as Bucket
use rust_recall.Cli.Bucket.{BucketCommands}
use rust_recall.Cli.Bucket.Run as Run
use rust_recall.Cli.Bucket.Run.{
  run_list, run_add, run_delete, run_query, run_metadata, handle_bucket,
}
use rust_recall.Cli.Account as Account
use rust_recall.Cli.Account.{AccountCommands, InfoArgs}
use rust_recall.Cli.Account.Run.{
  random_key, run_create, with_parent_balance, run_info, run_deposit, run_withdraw, run_transfer,
  run_sponsor, run_set_status, run_account, handle_account,
}
use rust_recall.Cli.Main.{
  Commands, Cli, account, subnet, storage, machine, bucket, timehub, dispatch, main,
}
use rust_recall.Cli.Output.{Quiet, Reports, OneLine, quiet}
use rust_recall.Cli.Output.Commands.{
  Quiet-connect, handle_credit-Reports, handle_subnet-Reports, handle_storage-Reports,
  handle_machine-Reports, print_created-Reports, handle_timehub-Reports,
}

-- `bucket get` writes an object instead of a line.
abbrev pub IsBucketGet : {F : Fvm} → Commands F → Type 0
IsBucketGet (bucket (Bucket.get args)) = Unit
IsBucketGet _ = ⊥

module _ (F : Fvm) (H : Host F) (cfg : NetworkConfig F) where
  Quiet-random_key : Quiet F H (random_key F H)
  unfolding random_key
  Quiet-random_key = record { unwritten = λ s. refl }

  Quiet-with_parent_balance :
      (id : SubnetId F) (above : Option (ParentNetworkConfig F)) (args : InfoArgs F) (a : F.Address)
      (j : Json F H.evm.Receipt)
      → Quiet F H (with_parent_balance F H id above args a j)
  unfolding with_parent_balance
  Quiet-with_parent_balance id none args a j = search (quiet)
  Quiet-with_parent_balance id (some above) args a j = search (quiet)

  run_create-Reports : (v : ℕ) → Reports F H (run_create F H v)
  unfolding run_create
  run_create-Reports v = search (quiet, Quiet-random_key)

  run_info-Reports :
      (v : ℕ) (p : Provider F H.client.Net) (args : InfoArgs F)
      → Reports F H (run_info F H cfg v p args)
  unfolding run_info
  run_info-Reports v p args = search (quiet, Quiet-with_parent_balance) depth 12

  run_account-Reports :
      (v : ℕ) (p : Provider F H.client.Net) (c : AccountCommands F)
      → Reports F H (run_account F H cfg v p c)
  unfolding run_account run_deposit run_withdraw run_transfer run_sponsor run_set_status
  run_account-Reports v p Account.create = search (quiet, run_create-Reports)
  run_account-Reports v p (Account.info args) = run_info-Reports v p args
  run_account-Reports v p (Account.deposit args) = search (quiet) depth 12
  run_account-Reports v p (Account.withdraw args) = search (quiet)
  run_account-Reports v p (Account.transfer args) = search (quiet)
  run_account-Reports v p (Account.set_sponsor args) = search (quiet)
  run_account-Reports v p (Account.unset_sponsor args) = search (quiet)
  run_account-Reports v p (Account.credit c) = handle_credit-Reports F H cfg c
  run_account-Reports v p (Account.set_status args) = search (quiet)

  handle_account-Reports :
      (v : ℕ) (c : AccountCommands F) → Reports F H (handle_account F H cfg v c)
  unfolding handle_account
  handle_account-Reports v c = search (quiet, Quiet-connect, run_account-Reports)

  handle_bucket-Reports :
      (c : BucketCommands F) → ¬ IsBucketGet (bucket c) → Reports F H (handle_bucket F H cfg c)
  unfolding handle_bucket Run.run_create run_list run_add run_delete run_query run_metadata
  handle_bucket-Reports (Bucket.create args) h =
      search (quiet, Quiet-connect, print_created-Reports)
  handle_bucket-Reports (Bucket.list args) h = search (quiet, Quiet-connect)
  handle_bucket-Reports (Bucket.add args) h = search (quiet, Quiet-connect)
  handle_bucket-Reports (Bucket.delete args) h = search (quiet, Quiet-connect)
  handle_bucket-Reports (Bucket.get args) h = absurd (h tt)
  handle_bucket-Reports (Bucket.query args) h = search (quiet, Quiet-connect)
  handle_bucket-Reports (Bucket.metadata args) h = search (quiet, Quiet-connect)

  dispatch-Reports : (v : ℕ) (c : Commands F) → ¬ IsBucketGet c → Reports F H (dispatch F H cfg v c)
  unfolding dispatch
  dispatch-Reports v (account c) h = handle_account-Reports v c
  dispatch-Reports v (subnet c) h = handle_subnet-Reports F H cfg c
  dispatch-Reports v (storage c) h = handle_storage-Reports F H cfg c
  dispatch-Reports v (machine c) h = handle_machine-Reports F H cfg c
  dispatch-Reports v (bucket c) h = handle_bucket-Reports c h
  dispatch-Reports v (timehub c) h = handle_timehub-Reports F H cfg c

-- Every command but `bucket get`, whatever the network, the chain and the crates answer, writes to
-- standard output once if it succeeds, the text of one value, which may hold line breaks itself, as a
-- line, and nothing if it fails or panics: an error leaves no partial output, also after a
-- transaction was sent.
pub main-OneLine :
    (F : Fvm) (H : Host F) (cli : Cli F) (current : FvmNetwork) (s : Shell F H)
    → ¬ IsBucketGet cli.command
    → let done = main F H cli (current, s) in OneLine done.0 s.printed (done.1.1).printed
unfolding main
main-OneLine F H cli current s h =
    let rest : Reports F H (
        lift (get_config F H.urls (get_network cli.network) current).0
        >>= (λ cfg. dispatch F H cfg cli.verbosity cli.command)) =
      search
        (quiet, λ (cfg : NetworkConfig F). dispatch-Reports F H cfg cli.verbosity cli.command h) in
    rest.written s
