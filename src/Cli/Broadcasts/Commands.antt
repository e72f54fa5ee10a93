-- ===== src/Cli/Broadcasts/Commands.antt =====
-- How often the commands of credit, subnets, storage, machines and timehubs broadcast.
use rust_recall.Base.{ℕ}
use rust_recall.Base.Action.Meter.{Meter, Costs, Costs-none}
use rust_recall.Fvm.{Fvm}
use rust_recall.Provider.Tx.{TxResult}
use rust_recall.Provider.Traits.{Provider}
use rust_recall.Provider.Broadcasts.{BroadcastsOnce}
use rust_recall.Sdk.Codecs.{CreateReturn}
use rust_recall.Sdk.Config as Config
use rust_recall.Sdk.Credits as Credits
use rust_recall.Sdk.Machine as Machine
use rust_recall.Sdk.Storage as SdkStorage
use rust_recall.Sdk.Timehub as SdkTimehub
use rust_recall.Sdk.Network.{NetworkConfig}
use rust_recall.Cli.Shell.{Host}
use rust_recall.Cli.Credit.{CreditCommands, stats, buy, approve, revoke, run_credit}
use rust_recall.Cli.Subnet as Subnet
use rust_recall.Cli.Subnet.{SubnetCommands, run_subnet}
use rust_recall.Cli.Storage as Storage
use rust_recall.Cli.Storage.{StorageCommands, run_storage}
use rust_recall.Cli.Machine.{print_created}
use rust_recall.Cli.Timehub as Timehub
use rust_recall.Cli.Timehub.{TimehubCommands, run_timehub}
use rust_recall.Cli.Broadcasts.{shell_meter, Costs-on_node, Costs-print_json, broadcasting}

module _ {F : Fvm} where
  -- The transactions that a command sends
  abbrev pub credit_broadcasts : CreditCommands F → ℕ
  credit_broadcasts (stats args) = 0
  credit_broadcasts _ = 1

  abbrev pub subnet_broadcasts : SubnetCommands F → ℕ
  subnet_broadcasts (Subnet.set_admin args) = 1
  subnet_broadcasts (Subnet.set args) = 1
  subnet_broadcasts _ = 0

  abbrev pub timehub_broadcasts : TimehubCommands F → ℕ
  timehub_broadcasts (Timehub.create args) = 1
  timehub_broadcasts (Timehub.push args) = 1
  timehub_broadcasts _ = 0

module _ (F : Fvm) (H : Host F) (M : Meter H.client.Net) (cfg : NetworkConfig F)
    (P : Provider F H.client.Net) (L : BroadcastsOnce F M P) where
  pub Costs-run_credit :
      (c : CreditCommands F)
      → Costs (shell_meter F H M) (credit_broadcasts c) (run_credit F H cfg P c)
  unfolding run_credit Credits.stats Credits.buy Credits.approve Credits.revoke
  Costs-run_credit (stats args) = search (broadcasting, L) depth 12
  Costs-run_credit (buy args) = search (broadcasting, L) depth 12
  Costs-run_credit (approve args) = search (broadcasting, L) depth 12
  Costs-run_credit (revoke args) = search (broadcasting, L) depth 12

  pub Costs-run_subnet :
      Costs M 0 (Config.chain_id F H.client)
      → (c : SubnetCommands F)
      → Costs (shell_meter F H M) (subnet_broadcasts c) (run_subnet F H cfg P c)
  unfolding run_subnet Config.set_config_admin Config.set_config Config.get_config_admin
      Config.get_config
  Costs-run_subnet id Subnet.chain_id =
      Costs-none (shell_meter F H M) (Costs-on_node F H M id) (λ text. Costs-print_json F H M _)
  Costs-run_subnet id (Subnet.set_admin args) = search (broadcasting, L) depth 12
  Costs-run_subnet id (Subnet.get_admin args) = search (broadcasting, L) depth 12
  Costs-run_subnet id (Subnet.set args) = search (broadcasting, L) depth 12
  Costs-run_subnet id (Subnet.get args) = search (broadcasting, L) depth 12

  pub Costs-run_storage :
      (c : StorageCommands F) → Costs (shell_meter F H M) 0 (run_storage F H cfg P c)
  unfolding run_storage SdkStorage.stats SdkStorage.usage
  Costs-run_storage (Storage.stats args) = search (broadcasting, L) depth 12
  Costs-run_storage (Storage.usage args) = search (broadcasting, L) depth 12

  pub Costs-print_created :
      (m : Machine.Machine F × TxResult F CreateReturn)
      → Costs (shell_meter F H M) 0 (print_created F H m)
  unfolding print_created
  Costs-print_created (store, tx) = search (broadcasting) depth 12

  pub Costs-run_timehub :
      (c : TimehubCommands F)
      → Costs (shell_meter F H M) (timehub_broadcasts c) (run_timehub F H cfg P c)
  unfolding run_timehub Machine.new_machine Machine.deploy_machine Machine.list_machines
      SdkTimehub.push SdkTimehub.leaf SdkTimehub.count SdkTimehub.peaks SdkTimehub.root
  Costs-run_timehub (Timehub.create args) = search (broadcasting, L, Costs-print_created) depth 12
  Costs-run_timehub (Timehub.list args) = search (broadcasting, L) depth 12
  Costs-run_timehub (Timehub.push args) = search (broadcasting, L) depth 12
  Costs-run_timehub (Timehub.leaf args) = search (broadcasting, L) depth 12
  Costs-run_timehub (Timehub.count args) = search (broadcasting, L) depth 12
  Costs-run_timehub (Timehub.peaks args) = search (broadcasting, L) depth 12
  Costs-run_timehub (Timehub.root args) = search (broadcasting, L) depth 12
