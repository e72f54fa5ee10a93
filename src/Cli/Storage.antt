-- ===== src/Cli/Storage.antt =====
-- cli/src/storage.rs: the statistics of the storage, and an account's usage.
use rust_recall.Base.{none}
use rust_recall.Base.Action.{Action, ◌>>=◌}
use rust_recall.Fvm.{Fvm}
use rust_recall.Provider.Traits.{Provider}
use rust_recall.Sdk.Storage as Storage
use rust_recall.Sdk.Network.{NetworkConfig}
use rust_recall.Cli.Json.{storage_stats, storage_usage}
use rust_recall.Cli.Shell.{Host, Shell, on_world, on_node, print_json}
use rust_recall.Cli.Options.{AddressArgs, get_address}
use rust_recall.Cli.Tx.{connect}

module _ (F : Fvm) where
  pub data StorageCommands : Type 0 where
    stats usage : AddressArgs F → StorageCommands

  module _ (H : Host F) where
    unfoldable pub run_storage :
        NetworkConfig F → Provider F H.client.Net → StorageCommands → Action (Shell F H) (Unit {0})
    run_storage cfg provider (stats args) = do
      s ← on_node F H (Storage.stats F H.codecs provider.queries args.height)
      print_json F H (storage_stats s)
    run_storage cfg provider (usage args) = do
      address ← on_world F H (get_address F args cfg.subnet_id)
      u ← on_node F H (Storage.usage F H.codecs provider.queries address args.height)
      print_json F H (storage_usage u)

    unfoldable pub handle_storage :
        NetworkConfig F → StorageCommands → Action (Shell F H) (Unit {0})
    handle_storage cfg command = do
      provider ← connect F H cfg none
      run_storage cfg provider command
