-- ===== src/Examples/Transactions.antt =====
-- How many transactions the programs of sdk/examples sign.
use rust_recall.Base.{ℕ}
use rust_recall.Base.Action.{Action}
use rust_recall.Fvm.{Fvm}
use rust_recall.Provider.Traits.{Provider}
use rust_recall.Signer.World.{World}
use rust_recall.Signer.Wallet.{Wallet}
use rust_recall.Sdk.Machine.{Machine}
use rust_recall.Sdk.Timehub as Timehub
use rust_recall.Sdk.Bucket as Bucket
use rust_recall.Sdk.Credits as Credits
use rust_recall.Cli.Shell.{Host, Shell}
use rust_recall.Examples.Process.{Crates}
use rust_recall.Base.Action.Meter.{Costs}
use rust_recall.Examples.Counting.{wallet_meter, shell_meter}

module _ (F : Fvm) (H : Host F) (X : Crates F H) (wallet : Wallet F)
    (P : Provider F H.client.Net) where
  abbrev WorldCosts {ℓ} : {A : Type ℓ} → ℕ → Action (World H.client.Net) A → Type ℓ
  WorldCosts k m = Costs (wallet_meter F wallet) k m

  abbrev ShellCosts {ℓ} : {A : Type ℓ} → ℕ → Action (Shell F H) A → Type ℓ
  ShellCosts k m = Costs (shell_meter F wallet H) k m
