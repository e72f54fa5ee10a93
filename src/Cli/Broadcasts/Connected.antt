-- ===== src/Cli/Broadcasts/Connected.antt =====
-- How often a command broadcasts that makes a provider: the handlers of credit, subnets, storage,
-- machines and timehubs.
use rust_recall.Base.{ℕ, String, Option, Result, ok, err, panic}
use rust_recall.Base.Action.{Action, ◌>>=◌, lift, pure}
use rust_recall.Base.Action.Meter.{Meter, Costs, Costs-fail, Costs-panic}
use rust_recall.Fvm.{Fvm}
use rust_recall.Provider.Traits.{Provider}
use rust_recall.Provider.JsonRpc.{JsonRpcProvider, json_rpc_provider}
use rust_recall.Provider.Broadcasts.{BroadcastsOnce}
use rust_recall.Provider.JsonRpc.Broadcasts.{
  CountsBroadcasts, broadcast_meter, Costs-kept, json_rpc_provider-BroadcastsOnce,
}
use rust_recall.Sdk.Config as Config
use rust_recall.Sdk.Machine as Machine
use rust_recall.Sdk.Network.{NetworkConfig}
use rust_recall.Cli.Credit.{CreditCommands, handle_credit}
use rust_recall.Cli.Machine.{InfoArgs as MachineInfoArgs, handle_machine}
use rust_recall.Cli.Storage.{StorageCommands, handle_storage}
use rust_recall.Cli.Subnet.{SubnetCommands, handle_subnet}
use rust_recall.Cli.Timehub.{TimehubCommands, handle_timehub}
use rust_recall.Cli.Shell.{Host, Shell}
use rust_recall.Cli.Tx.{connect}
use rust_recall.Cli.Broadcasts.{shell_meter, broadcasting}
use rust_recall.Cli.Broadcasts.Commands.{
  credit_broadcasts, subnet_broadcasts, timehub_broadcasts, Costs-run_credit, Costs-run_subnet,
  Costs-run_storage, Costs-run_timehub,
}

module _ (F : Fvm) (H : Host F) (count : H.client.Net → ℕ) (L : CountsBroadcasts F H.client count)
    (cfg : NetworkConfig F) where
  abbrev pub meter : Meter H.client.Net
  meter = broadcast_meter F H.client count

  abbrev pub ShellCosts {ℓ} : {A : Type ℓ} → ℕ → Action (Shell F H) A → Type ℓ
  ShellCosts k m = Costs (shell_meter F H meter) k m

  pub node : (p : JsonRpcProvider) → BroadcastsOnce F meter (json_rpc_provider F H.client p)
  node p = json_rpc_provider-BroadcastsOnce F H.client count L p

  made :
      {k : ℕ} (f : Provider F H.client.Net → Action (Shell F H) (Unit {0}))
      (r : Result JsonRpcProvider)
      → ((p : JsonRpcProvider) → ShellCosts k (f (json_rpc_provider F H.client p)))
      → ShellCosts k ((lift r >>= (λ p. pure (json_rpc_provider F H.client p))) >>= f)
  made f (ok p) h = h p
  made {k} f (err e) h = Costs-fail (shell_meter F H meter) k e
  made {k} f (panic e) h = Costs-panic (shell_meter F H meter) k e

  -- What is done with a provider once it is made
  pub connected :
      {k : ℕ} (url : Option String) (f : Provider F H.client.Net → Action (Shell F H) (Unit {0}))
      → ((p : JsonRpcProvider) → ShellCosts k (f (json_rpc_provider F H.client p)))
      → ShellCosts k (connect F H cfg url >>= f)
  unfolding connect
  connected url f h = made f _ h

  pub Costs-handle_credit :
      (c : CreditCommands F) → ShellCosts (credit_broadcasts c) (handle_credit F H cfg c)
  unfolding handle_credit
  Costs-handle_credit c = search (connected, Costs-run_credit, node)

  pub Costs-handle_subnet :
      (c : SubnetCommands F) → ShellCosts (subnet_broadcasts c) (handle_subnet F H cfg c)
  unfolding handle_subnet Config.chain_id
  Costs-handle_subnet c = search (connected, Costs-run_subnet, node, Costs-kept, L.status_keeps)

  pub Costs-handle_storage : (c : StorageCommands F) → ShellCosts 0 (handle_storage F H cfg c)
  unfolding handle_storage
  Costs-handle_storage c = search (connected, Costs-run_storage, node)

  pub Costs-handle_machine : (a : MachineInfoArgs F) → ShellCosts 0 (handle_machine F H cfg a)
  unfolding handle_machine Machine.info
  Costs-handle_machine a = search (connected, broadcasting, node) depth 12

  pub Costs-handle_timehub :
      (c : TimehubCommands F) → ShellCosts (timehub_broadcasts c) (handle_timehub F H cfg c)
  unfolding handle_timehub
  Costs-handle_timehub c = search (connected, Costs-run_timehub, node)
