-- ===== src/Cli/Broadcasts.antt =====
-- How often the commands of cli/src broadcast: the calls that they share.
pub mod Commands
pub mod Connected
pub mod Bucket
pub mod Main
use rust_recall.Base.{ℕ, ◌≡◌, refl, sym, Option, none, some}
use mathlib.Core.Path.{subst}
use rust_recall.Base.Action.{Action, ◌>>=◌, pure, fail}
use rust_recall.Base.Action.Meter.{
  Meter, part_meter, Costs, Charged-part, Costs-moved, Costs-lift, Costs-pure, Costs-fail, metered,
}
use rust_recall.Actors.{Method}
use rust_recall.Fvm.{Bytes, FvmQueryHeight, DeliverTx, Fvm}
use rust_recall.Base.{Result, String}
use rust_recall.Provider.Tx.{TxResult}
use rust_recall.Provider.Traits.{Provider}
use rust_recall.Provider.Broadcasts.{BroadcastsOnce, Costs-call_actor}
use rust_recall.Signer.World.{World}
use rust_recall.Signer.Subnet.{SubnetId}
use rust_recall.Signer.Wallet.{ethereum, new_wallet}
use rust_recall.Signer.Wallet.Broadcasts.{
  world_meter, Costs-new_wallet, Costs-set_sequence, Costs-on_net, Costs-transact,
}
use rust_recall.Sdk.Call.{read_actor}
use rust_recall.Cli.Json.{Json}
use rust_recall.Cli.Options.{AddressArgs, TxArgs, get_address}
use rust_recall.Cli.Shell.{
  Host, Shell, Output, write, on_world, on_node, on_evm, print_json, print_tx_json,
}
use rust_recall.Cli.Tx.{tx_signer}

module _ (F : Fvm) {N : Type 0} (M : Meter N) (P : Provider F N) (L : BroadcastsOnce F M P) where
  pub Costs-read_actor :
      {T : Type 0} (to : F.Address) (method : Method) (params : Bytes) (at : FvmQueryHeight)
      (decode : DeliverTx → Result T)
      → Costs M 0 (read_actor F P.queries to method params at decode)
  unfolding read_actor
  Costs-read_actor to method params at decode = search (metered, Costs-call_actor, L.query_none)

  pub Costs-tx_signer :
      (sk : F.SecretKey) (id : SubnetId F) (args : TxArgs)
      → Costs (world_meter M) 0 (tx_signer F sk id args P)
  unfolding tx_signer
  Costs-tx_signer sk id args = search (metered, Costs-new_wallet, L, Costs-set_sequence)

  address_of :
      (id : SubnetId F) (address : Option F.Address) (sk : Option F.SecretKey) (e : String)
      → Costs (world_meter M) {A = F.Address} 0 (elim address [
        | some addr ↦ pure addr
        | none ↦ elim sk [
          | some k ↦ new_wallet F k ethereum id >>= (λ signer. pure signer.addr)
          | none ↦ fail e
        ]
      ])
  address_of id (some addr) sk e = Costs-pure (world_meter M) addr
  address_of id none (some k) e = search (metered, Costs-new_wallet, L)
  address_of id none none e = Costs-fail (world_meter M) 0 e

  pub Costs-get_address :
      (args : AddressArgs F) (id : SubnetId F) → Costs (world_meter M) 0 (get_address F args id)
  unfolding get_address
  Costs-get_address args id = address_of id args.address args.private_key _

module _ (F : Fvm) (H : Host F) (M : Meter H.client.Net) where
  abbrev pub shell_meter : Meter (Shell F H)
  shell_meter = part_meter (λ s. s.world) (world_meter M)

  module _ {ℓ} {A : Type ℓ} where
    pub Costs-on_world :
        {k : ℕ} {m : Action (World H.client.Net) A}
        → Costs (world_meter M) k m
        → Costs shell_meter k (on_world F H m)
    Costs-on_world {k} {m} p = record {
      charged = λ s.
          Charged-part (world_meter M) (λ s. s.world) k (m s.world).0 s (on_world F H m s).1
            (p.charged s.world);
    }

    pub Costs-on_node :
        {k : ℕ} {m : Action H.client.Net A} → Costs M k m → Costs shell_meter k (on_node F H m)
    Costs-on_node p = Costs-on_world (Costs-on_net M p)

    -- What leaves the world alone
    pub Costs-aside :
        (m : Action (Shell F H) A)
        → ((s : Shell F H) → (m s).1.world ≡ s.world)
        → Costs shell_meter 0 m
    Costs-aside m h =
        Costs-moved shell_meter 0 m
          (λ s. subst (λ w. M.moved 0 s.world.net w.net) (sym (h s)) (M.still s.world.net))

    pub Costs-on_evm : (m : Action H.evm.N A) → Costs shell_meter 0 (on_evm F H m)
    Costs-on_evm m = Costs-aside (on_evm F H m) (λ s. refl)

  pub Costs-write : (o : Output) → Costs shell_meter 0 (write F H o)
  unfolding write
  Costs-write o = Costs-aside (write F H o) (λ s. refl)

  pub Costs-print_json : (j : Json F H.evm.Receipt) → Costs shell_meter 0 (print_json F H j)
  unfolding print_json
  Costs-print_json j = search (metered, Costs-write)

  pub Costs-print_tx_json :
      {T : Type 0} (tx : TxResult F T) → Costs shell_meter 0 (print_tx_json F H tx)
  unfolding print_tx_json
  Costs-print_tx_json tx = search (metered, Costs-write)

pub ruleset broadcasting = (
  metered, Costs-read_actor, Costs-tx_signer, Costs-get_address, Costs-on_net, Costs-transact,
  Costs-new_wallet, Costs-on_world, Costs-on_node, Costs-on_evm, Costs-write, Costs-print_json,
  Costs-print_tx_json,
)
