-- ===== src/Cli/Broadcasts/Main.antt =====
-- How often the commands of accounts, and `main`, broadcast.
use rust_recall.Base.{ℕ, ◌+◌, ◌≡◌, ◌≤◌, refl, Option, none, some, Result, ok, err, panic}
use rust_recall.Base.Action.{Action, ◌>>=◌, lift}
use rust_recall.Base.Action.Meter.{Meter, Charged, Costs, Costs-lift, Costs-none}
use rust_recall.Fvm.{FvmNetwork, Fvm}
use rust_recall.Provider.Traits.{Provider}
use rust_recall.Provider.Broadcasts.{BroadcastsOnce, Costs-get_actor_state}
use rust_recall.Provider.JsonRpc.Broadcasts.{CountsBroadcasts, broadcast_meter}
use rust_recall.Sdk.Account as Sdk
use rust_recall.Sdk.Credits as Credits
use rust_recall.Sdk.Network.{NetworkConfig, ParentNetworkConfig, get_config}
use rust_recall.Cli.Account as Account
use rust_recall.Cli.Account.{AccountCommands, InfoArgs}
use rust_recall.Cli.Account.Run.{
  random_key, run_create, with_parent_balance, run_info, run_deposit, run_withdraw, run_transfer,
  run_sponsor, run_set_status, run_account, handle_account,
}
use rust_recall.Cli.Json.{Json}
use rust_recall.Cli.Main.{
  Commands, Cli, account, subnet, storage, machine, bucket, timehub, dispatch, main,
}
use rust_recall.Signer.Subnet.{SubnetId}
use rust_recall.Cli.Options.{get_network}
use rust_recall.Cli.Shell.{Host, Shell}
use rust_recall.Cli.Broadcasts.{shell_meter, Costs-aside, broadcasting}
use rust_recall.Cli.Broadcasts.Commands.{credit_broadcasts, subnet_broadcasts, timehub_broadcasts}
use rust_recall.Cli.Broadcasts.Connected.{
  node, connected, Costs-handle_credit, Costs-handle_subnet, Costs-handle_storage,
  Costs-handle_machine, Costs-handle_timehub,
}
use rust_recall.Cli.Broadcasts.Bucket.{bucket_broadcasts, Costs-handle_bucket}

module _ {F : Fvm} where
  -- Deposits, withdrawals and transfers go through the EVM.
  abbrev pub account_broadcasts : AccountCommands F → ℕ
  account_broadcasts (Account.credit c) = credit_broadcasts c
  account_broadcasts (Account.set_sponsor args) = 1
  account_broadcasts (Account.unset_sponsor args) = 1
  account_broadcasts (Account.set_status args) = 1
  account_broadcasts _ = 0

  -- The transactions that a command broadcasts through the provider
  abbrev pub broadcasts : Commands F → ℕ
  broadcasts (account c) = account_broadcasts c
  broadcasts (subnet c) = subnet_broadcasts c
  broadcasts (storage c) = 0
  broadcasts (machine c) = 0
  broadcasts (bucket c) = bucket_broadcasts c
  broadcasts (timehub c) = timehub_broadcasts c

module _ (F : Fvm) (H : Host F) (count : H.client.Net → ℕ) (L : CountsBroadcasts F H.client count)
    (cfg : NetworkConfig F) where
  abbrev M : Meter H.client.Net
  M = broadcast_meter F H.client count

  abbrev ShellCosts {ℓ} : {A : Type ℓ} → ℕ → Action (Shell F H) A → Type ℓ
  ShellCosts k m = Costs (shell_meter F H M) k m

  Costs-random_key : ShellCosts 0 (random_key F H)
  unfolding random_key
  Costs-random_key = Costs-aside F H M (random_key F H) (λ s. refl)

  Costs-with_parent_balance :
      (id : SubnetId F) (above : Option (ParentNetworkConfig F)) (args : InfoArgs F) (a : F.Address)
      (j : Json F H.evm.Receipt)
      → ShellCosts 0 (with_parent_balance F H id above args a j)
  unfolding with_parent_balance
  Costs-with_parent_balance id none args a j = search (broadcasting)
  Costs-with_parent_balance id (some above) args a j = search (broadcasting) depth 12

  module _ (verbosity : ℕ) (P : Provider F H.client.Net) (l : BroadcastsOnce F M P) where
    Costs-run_info : (args : InfoArgs F) → ShellCosts 0 (run_info F H cfg verbosity P args)
    unfolding run_info Sdk.sequence Credits.balance
    Costs-run_info args =
        search (broadcasting, l, Costs-get_actor_state, l.query_none, Costs-with_parent_balance)
          depth 20 fits 4000

    Costs-run_account :
        (c : AccountCommands F)
        → ShellCosts (account_broadcasts c) (run_account F H cfg verbosity P c)
    unfolding run_account run_create run_deposit run_withdraw run_transfer run_sponsor
        run_set_status Sdk.set_sponsor Sdk.set_status
    Costs-run_account Account.create = search (broadcasting, Costs-random_key) depth 14
    Costs-run_account (Account.info args) = Costs-run_info args
    Costs-run_account (Account.deposit args) = search (broadcasting, l) depth 14
    Costs-run_account (Account.withdraw args) = search (broadcasting, l) depth 14
    Costs-run_account (Account.transfer args) = search (broadcasting, l) depth 14
    Costs-run_account (Account.set_sponsor args) = search (broadcasting, l) depth 14
    Costs-run_account (Account.unset_sponsor args) = search (broadcasting, l) depth 14
    Costs-run_account (Account.credit c) = Costs-handle_credit F H count L cfg c
    Costs-run_account (Account.set_status args) = search (broadcasting, l) depth 14

  Costs-handle_account :
      (verbosity : ℕ) (c : AccountCommands F)
      → ShellCosts (account_broadcasts c) (handle_account F H cfg verbosity c)
  unfolding handle_account
  Costs-handle_account verbosity c =
      search (connected F H count L cfg, Costs-run_account, node F H count L)

  Costs-dispatch :
      (verbosity : ℕ) (c : Commands F) → ShellCosts (broadcasts c) (dispatch F H cfg verbosity c)
  unfolding dispatch
  Costs-dispatch verbosity (account c) = Costs-handle_account verbosity c
  Costs-dispatch verbosity (subnet c) = Costs-handle_subnet F H count L cfg c
  Costs-dispatch verbosity (storage c) = Costs-handle_storage F H count L cfg c
  Costs-dispatch verbosity (machine c) = Costs-handle_machine F H count L cfg c
  Costs-dispatch verbosity (bucket c) = Costs-handle_bucket F H count L cfg c
  Costs-dispatch verbosity (timehub c) = Costs-handle_timehub F H count L cfg c

-- `k` broadcasts between the counts `n` and `m` if the command succeeds, and at most `k` if not
abbrev pub Broadcast : ℕ → Result (Unit {0}) → ℕ → ℕ → Type 0
Broadcast k (ok a) n m = m ≡ n + k
Broadcast k (err e) n m = (j : ℕ) × (j ≤ k) × (m ≡ n + j)
Broadcast k (panic e) n m = (j : ℕ) × (j ≤ k) × (m ≡ n + j)

module _ (F : Fvm) (H : Host F) (count : H.client.Net → ℕ)
    (L : CountsBroadcasts F H.client count) where
  counted :
      (k : ℕ) (r : Result (Unit {0})) (s t : Shell F H)
      → Charged (shell_meter F H (broadcast_meter F H.client count)) k r s t
      → Broadcast k r (count s.world.net) (count t.world.net)
  counted k (ok a) s t h = h
  counted k (err e) s t h = h
  counted k (panic e) s t h = h

  -- A command broadcasts no transaction, or one, as it is meant to, if it succeeds, and no more if
  -- it fails or panics, whatever the chain and the crates answer: nothing is ever sent twice. What
  -- counts is each call of a method of the node's client that broadcasts; no other method counts,
  -- and neither does the repetition of an operation that does not.
  pub main-Broadcast :
      (cli : Cli F) (current : FvmNetwork) (s : Shell F H)
      → let done = main F H cli (current, s) in
        Broadcast (broadcasts cli.command) done.0 (count s.world.net) (count (done.1.1).world.net)
  unfolding main
  main-Broadcast cli current s =
      let rest : Costs (shell_meter F H (broadcast_meter F H.client count)) (broadcasts cli.command)
          (lift (get_config F H.urls (get_network cli.network) current).0
            >>= (λ cfg. dispatch F H cfg cli.verbosity cli.command)) =
        Costs-none (shell_meter F H (broadcast_meter F H.client count))
          (Costs-lift (shell_meter F H (broadcast_meter F H.client count)) _)
          (λ cfg. Costs-dispatch F H count L cfg cli.verbosity cli.command) in
      counted (broadcasts cli.command) _ s _ (rest.charged s)
