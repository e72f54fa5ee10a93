-- ===== src/Cli/Output/Commands.antt =====
-- The commands of credit, subnets, storage, machines and timehubs write one line, or nothing.
use rust_recall.Base.{Option}
use rust_recall.Fvm.{Fvm}
use rust_recall.Provider.Tx.{TxResult}
use rust_recall.Provider.Traits.{Provider}
use rust_recall.Sdk.Codecs.{CreateReturn}
use rust_recall.Sdk.Machine as Sdk
use rust_recall.Sdk.Network.{NetworkConfig}
use rust_recall.Cli.Shell.{Host}
use rust_recall.Cli.Tx.{connect}
use rust_recall.Cli.Credit.{CreditCommands, stats, buy, approve, revoke, run_credit, handle_credit}
use rust_recall.Cli.Subnet as Subnet
use rust_recall.Cli.Subnet.{SubnetCommands, run_subnet, handle_subnet}
use rust_recall.Cli.Storage as Storage
use rust_recall.Cli.Storage.{StorageCommands, run_storage, handle_storage}
use rust_recall.Cli.Machine.{InfoArgs, handle_machine, print_created}
use rust_recall.Cli.Timehub as Timehub
use rust_recall.Cli.Timehub.{TimehubCommands, run_timehub, handle_timehub}
use rust_recall.Cli.Output.{Quiet, Reports, quiet}

module _ (F : Fvm) (H : Host F) (cfg : NetworkConfig F) where
  pub Quiet-connect : (url : Option _) → Quiet F H (connect F H cfg url)
  unfolding connect
  Quiet-connect url = search (quiet)

  pub run_credit-Reports :
      (p : Provider F H.client.Net) (c : CreditCommands F) → Reports F H (run_credit F H cfg p c)
  unfolding run_credit
  run_credit-Reports p (stats args) = search (quiet)
  run_credit-Reports p (buy args) = search (quiet)
  run_credit-Reports p (approve args) = search (quiet)
  run_credit-Reports p (revoke args) = search (quiet)

  pub handle_credit-Reports : (c : CreditCommands F) → Reports F H (handle_credit F H cfg c)
  unfolding handle_credit
  handle_credit-Reports c = search (quiet, Quiet-connect, run_credit-Reports)

  pub run_subnet-Reports :
      (p : Provider F H.client.Net) (c : SubnetCommands F) → Reports F H (run_subnet F H cfg p c)
  unfolding run_subnet
  run_subnet-Reports p Subnet.chain_id = search (quiet)
  run_subnet-Reports p (Subnet.set_admin args) = search (quiet)
  run_subnet-Reports p (Subnet.get_admin args) = search (quiet)
  run_subnet-Reports p (Subnet.set args) = search (quiet)
  run_subnet-Reports p (Subnet.get args) = search (quiet)

  pub handle_subnet-Reports : (c : SubnetCommands F) → Reports F H (handle_subnet F H cfg c)
  unfolding handle_subnet
  handle_subnet-Reports c = search (quiet, Quiet-connect, run_subnet-Reports)

  pub run_storage-Reports :
      (p : Provider F H.client.Net) (c : StorageCommands F) → Reports F H (run_storage F H cfg p c)
  unfolding run_storage
  run_storage-Reports p (Storage.stats args) = search (quiet)
  run_storage-Reports p (Storage.usage args) = search (quiet)

  pub handle_storage-Reports : (c : StorageCommands F) → Reports F H (handle_storage F H cfg c)
  unfolding handle_storage
  handle_storage-Reports c = search (quiet, Quiet-connect, run_storage-Reports)

  pub handle_machine-Reports : (a : InfoArgs F) → Reports F H (handle_machine F H cfg a)
  unfolding handle_machine
  handle_machine-Reports a = search (quiet, Quiet-connect)

  pub print_created-Reports :
      (m : Sdk.Machine F × TxResult F CreateReturn) → Reports F H (print_created F H m)
  unfolding print_created
  print_created-Reports (store, tx) = search (quiet)

  pub run_timehub-Reports :
      (p : Provider F H.client.Net) (c : TimehubCommands F) → Reports F H (run_timehub F H cfg p c)
  unfolding run_timehub
  run_timehub-Reports p (Timehub.create args) = search (quiet, print_created-Reports)
  run_timehub-Reports p (Timehub.list args) = search (quiet)
  run_timehub-Reports p (Timehub.push args) = search (quiet)
  run_timehub-Reports p (Timehub.leaf args) = search (quiet)
  run_timehub-Reports p (Timehub.count args) = search (quiet)
  run_timehub-Reports p (Timehub.peaks args) = search (quiet)
  run_timehub-Reports p (Timehub.root args) = search (quiet)

  pub handle_timehub-Reports : (c : TimehubCommands F) → Reports F H (handle_timehub F H cfg c)
  unfolding handle_timehub
  handle_timehub-Reports c = search (quiet, Quiet-connect, run_timehub-Reports)
