-- ===== src/Cli/Main.antt =====
-- cli/src/main.rs: `main`, after the options are parsed and the log is set up.
use rust_recall.Base.{ℕ, String, Option}
use rust_recall.Base.Action.{Action, ◌>>=◌, lift}
use rust_recall.Fvm.{FvmNetwork, Fvm}
use rust_recall.Signer.Subnet.{SubnetId}
use rust_recall.Sdk.Network.{NetworkConfig, get_config}
use rust_recall.Cli.Shell.{Host, Shell}
use rust_recall.Cli.Options.{Network, get_network}
use rust_recall.Cli.Account.{AccountCommands}
use rust_recall.Cli.Account.Run.{handle_account}
use rust_recall.Cli.Subnet.{SubnetCommands, handle_subnet}
use rust_recall.Cli.Storage.{StorageCommands, handle_storage}
use rust_recall.Cli.Machine.{InfoArgs, handle_machine}
use rust_recall.Cli.Bucket.{BucketCommands}
use rust_recall.Cli.Bucket.Run.{handle_bucket}
use rust_recall.Cli.Timehub.{TimehubCommands, handle_timehub}

module _ (F : Fvm) where
  pub data Commands : Type 0 where
    account : AccountCommands F → Commands
    subnet : SubnetCommands F → Commands
    storage : StorageCommands F → Commands
    -- `MachineCommands` has one constructor.
    machine : InfoArgs F → Commands
    bucket : BucketCommands F → Commands
    timehub : TimehubCommands F → Commands

  -- `Cli`, without `quiet`, which only concerns the log and the progress bars
  pub record Cli : Type 0 where
    pub command : Commands
    pub network : Network
    pub subnet : Option (SubnetId F)
    pub rpc_url : Option String
    pub verbosity : ℕ

  module _ (H : Host F) where
    unfoldable pub dispatch : NetworkConfig F → ℕ → Commands → Action (Shell F H) (Unit {0})
    dispatch cfg verbosity (account args) = handle_account F H cfg verbosity args
    dispatch cfg verbosity (subnet args) = handle_subnet F H cfg args
    dispatch cfg verbosity (storage args) = handle_storage F H cfg args
    dispatch cfg verbosity (machine args) = handle_machine F H cfg args
    dispatch cfg verbosity (bucket args) = handle_bucket F H cfg args
    dispatch cfg verbosity (timehub args) = handle_timehub F H cfg args

    -- The current network of the process stands beside the shell.
    unfoldable pub main : Cli → Action (FvmNetwork × Shell F H) (Unit {0})
    main cli (current, s) =
        let (preset, network) = get_config F H.urls (get_network cli.network) current in
        let (r, t) = (lift preset >>= (λ cfg. dispatch cfg cli.verbosity cli.command)) s in
        (r, (network, t))
