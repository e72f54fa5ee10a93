-- ===== src/Examples/Counting.antt =====
-- How many transactions of a wallet a program signs, told by the wallet's sequence.
use rust_recall.Base.{ℕ, ◌+◌, ◌%◌, ◌≡◌, refl, ap, Result, arith}
use rust_recall.Base.Int.{ℤ}
use rust_recall.Base.Text.{u64_mod}
use rust_recall.Base.Action.{Action}
use rust_recall.Base.Action.Meter.{
  Meter, part_meter, Costs, Charged-part, Costs-moved, Costs-lift, Costs-none, metered,
}
use rust_recall.Actors.{Method, Params}
use rust_recall.Fvm.{Bytes, Message, DeliverTx, Fvm}
use rust_recall.Provider.Message.{GasParams}
use rust_recall.Provider.Tx.{BroadcastMode}
use rust_recall.Provider.Traits.{Provider}
use rust_recall.Signer.World.{World, on_net}
use rust_recall.Signer.Wallet.{
  Wallet, with_gas_limit, sign_and_perform, send_transaction, wallet_signer,
}
use rust_recall.Signer.Wallet.Sequence.{sign_and_perform-CountedUp, with_gas_limit_cells}
use rust_recall.Sdk.Call.{TxOptions, transact}
use rust_recall.Cli.Shell.{Host, Shell, Output, write, on_world, on_node, on_evm}

pub add_mod :
    (j k a b c : ℕ)
    → b % u64_mod ≡ (a + j) % u64_mod
    → c % u64_mod ≡ (b + k) % u64_mod
    → c % u64_mod ≡ (a + (j + k)) % u64_mod
add_mod j k a b c p q = omega arith

module _ (F : Fvm) (wallet : Wallet F) where
  -- The wallet's sequence moves, with wrap-around.
  abbrev pub wallet_meter : {N : Type 0} → Meter (World N)
  wallet_meter = record {
    moved = λ k w v. v.cells wallet.sequence % u64_mod ≡ (w.cells wallet.sequence + k) % u64_mod;
    still = λ w. omega arith;
    further = λ j k s t u.
        add_mod j k (s.cells wallet.sequence) (t.cells wallet.sequence) (u.cells wallet.sequence);
  }

  same-cell :
      {N : Type 0} (w v : World N)
      → v.cells wallet.sequence ≡ w.cells wallet.sequence
      → wallet_meter.moved 0 w v
  same-cell w v h = omega arith

  module _ {N T : Type 0} (P : Provider F N) (mode : BroadcastMode)
      (decode : DeliverTx → Result T) where
    Costs-with_gas_limit :
        (m : Message F.Address) → Costs wallet_meter 0 (with_gas_limit F P.queries m)
    Costs-with_gas_limit m = Costs-moved wallet_meter 0 (with_gas_limit F P.queries m) (λ w.
        same-cell w (with_gas_limit F P.queries m w).1
          (ap (λ cells. cells wallet.sequence) (with_gas_limit_cells F P mode decode m w).0))

    Costs-sign_and_perform :
        (m : Message F.Address) → Costs wallet_meter 1 (sign_and_perform F P mode decode wallet m)
    Costs-sign_and_perform m =
        Costs-moved wallet_meter 1 (sign_and_perform F P mode decode wallet m)
          (λ w. omega (arith, (sign_and_perform-CountedUp F P mode decode wallet m w).counted))

    Costs-send_transaction :
        (to : F.Address) (value : ℤ) (n : ℕ) (params : Bytes) (gas : GasParams)
        → Costs wallet_meter 1 (send_transaction F P mode decode wallet to value n params gas)
    unfolding send_transaction
    Costs-send_transaction to value n params gas =
        Costs-none wallet_meter (Costs-with_gas_limit _) Costs-sign_and_perform

  pub Costs-transact :
      {N T : Type 0} (P : Provider F N) (to : F.Address) (value : ℤ) (method : Method)
      (params : Params F.Address) (options : TxOptions) (decode : DeliverTx → Result T)
      → Costs wallet_meter 1
          (transact F P (wallet_signer F wallet) to value method params options decode)
  unfolding transact wallet_signer
  Costs-transact P to value method params options decode =
      Costs-none wallet_meter (Costs-lift wallet_meter _) (λ bytes.
        Costs-send_transaction P options.broadcast_mode decode to value (F.method_number method)
          bytes options.gas_params)

  pub Costs-on_net {ℓ} :
      {N : Type 0} {A : Type ℓ} (m : Action N A) → Costs wallet_meter 0 (on_net m)
  Costs-on_net m = Costs-moved wallet_meter 0 (on_net m) (λ w. same-cell w (on_net m w).1 refl)

  -- The same of a program
  module _ (H : Host F) where
    abbrev pub shell_meter : Meter (Shell F H)
    shell_meter = part_meter (λ s. s.world) wallet_meter

    module _ {ℓ} {A : Type ℓ} where
      pub Costs-unmoved :
          (m : Action (Shell F H) A)
          → ((s : Shell F H) → (m s).1.world ≡ s.world)
          → Costs shell_meter 0 m
      Costs-unmoved m h =
          Costs-moved shell_meter 0 m
            (λ s. same-cell s.world (m s).1.world (ap (λ w. w.cells wallet.sequence) (h s)))

      pub Costs-on_world :
          {k : ℕ} {m : Action (World H.client.Net) A}
          → Costs wallet_meter k m
          → Costs shell_meter k (on_world F H m)
      Costs-on_world {k} {m} p = record {
        charged = λ s.
            Charged-part wallet_meter (λ s. s.world) k (m s.world).0 s (on_world F H m s).1
              (p.charged s.world);
      }

      pub Costs-on_node : (m : Action H.client.Net A) → Costs shell_meter 0 (on_node F H m)
      Costs-on_node m = Costs-on_world (Costs-on_net m)

      pub Costs-on_evm : (m : Action H.evm.N A) → Costs shell_meter 0 (on_evm F H m)
      Costs-on_evm m = Costs-unmoved (on_evm F H m) (λ s. refl)

    pub Costs-write : (o : Output) → Costs shell_meter 0 (write F H o)
    unfolding write
    Costs-write o = Costs-unmoved (write F H o) (λ s. refl)

pub ruleset counting = (
  metered, Costs-transact, Costs-on_net, Costs-on_world, Costs-on_node, Costs-on_evm, Costs-write,
)
