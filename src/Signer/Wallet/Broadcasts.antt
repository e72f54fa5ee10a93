-- ===== src/Signer/Wallet/Broadcasts.antt =====
-- How often the calls of a wallet broadcast, over a provider that broadcasts only what it performs.
use rust_recall.Base.{ℕ, ◌≡◌, refl, sym, Option, none, some, Result}
use mathlib.Core.Path.{subst}
use rust_recall.Base.Int.{ℤ}
use rust_recall.Base.Action.{Action}
use rust_recall.Base.Action.Meter.{
  Meter, part_meter, Costs, Charged-part, Costs-moved, Costs-fail, metered,
}
use rust_recall.Actors.{Method, Params}
use rust_recall.Fvm.{Bytes, Message, DeliverTx, ActorState, Fvm}
use rust_recall.Provider.Message.{GasParams}
use rust_recall.Provider.Tx.{BroadcastMode}
use rust_recall.Provider.Traits.{Provider}
use rust_recall.Provider.Broadcasts.{
  BroadcastsOnce, Costs-estimate_gas_limit, Costs-get_actor_state,
}
use rust_recall.Signer.World.{World, on_net, new_cell, write_cell}
use rust_recall.Signer.Subnet.{SubnetId}
use rust_recall.Signer.Wallet.{
  Wallet, AccountKind, new_wallet, store_sequence, init_sequence, set_sequence, with_gas_limit,
  number_message, sign_and_perform, send_transaction, wallet_signer,
}
use rust_recall.Sdk.Call.{TxOptions, transact}

module _ {N : Type 0} (M : Meter N) where
  abbrev pub world_meter : Meter (World N)
  world_meter = part_meter (λ w. w.net) M

  module _ {ℓ} {A : Type ℓ} where
    pub Costs-on_net : {k : ℕ} {m : Action N A} → Costs M k m → Costs world_meter k (on_net m)
    Costs-on_net {k} {m} p = record {
      charged = λ w. Charged-part M (λ w. w.net) k (m w.net).0 w (on_net m w).1 (p.charged w.net);
    }

    -- A call that leaves the network alone
    pub Costs-local :
        (m : Action (World N) A) → ((w : World N) → (m w).1.net ≡ w.net) → Costs world_meter 0 m
    Costs-local m h =
        Costs-moved world_meter 0 m
          (λ w. subst (λ n. M.moved 0 w.net n) (sym (h w)) (M.still w.net))

  module _ (F : Fvm) (P : Provider F N) (L : BroadcastsOnce F M P) where
    pub Costs-new_wallet :
        (sk : F.SecretKey) (kind : AccountKind) (id : SubnetId F)
        → Costs world_meter 0 (new_wallet F sk kind id)
    unfolding new_wallet new_cell
    Costs-new_wallet sk kind id = search (metered, Costs-local)

    module _ (wallet : Wallet F) where
      Costs-write_cell : (n : ℕ) → Costs world_meter 0 (write_cell wallet.sequence n)
      unfolding write_cell
      Costs-write_cell n = Costs-local (write_cell wallet.sequence n) (λ w. refl)

      Costs-store_sequence :
          (found : Option (ℕ × ActorState)) → Costs world_meter 0 (store_sequence F wallet found)
      unfolding store_sequence
      Costs-store_sequence (some (id, state)) = Costs-write_cell state.sequence
      Costs-store_sequence none = Costs-fail world_meter 0 _

      pub Costs-init_sequence : Costs world_meter 0 (init_sequence F wallet P.queries)
      unfolding init_sequence
      Costs-init_sequence =
          search (metered, Costs-on_net, Costs-get_actor_state, L.query_none, Costs-store_sequence)

      pub Costs-set_sequence :
          (given : Option ℕ) → Costs world_meter 0 (set_sequence F wallet given P.queries)
      unfolding set_sequence
      Costs-set_sequence none = Costs-init_sequence
      Costs-set_sequence (some n) = Costs-write_cell n

      Costs-with_gas_limit :
          (m : Message F.Address) → Costs world_meter 0 (with_gas_limit F P.queries m)
      unfolding with_gas_limit
      Costs-with_gas_limit m =
          search (metered, Costs-on_net, Costs-estimate_gas_limit, L.query_none)

      module _ {T : Type 0} (decode : DeliverTx → Result T) where
        Costs-number_message :
            (m : Message F.Address) → Costs world_meter 0 (number_message F wallet m)
        unfolding number_message
        Costs-number_message m = Costs-local (number_message F wallet m) (λ w. refl)

        Costs-sign_and_perform :
            (mode : BroadcastMode) (m : Message F.Address)
            → Costs world_meter 1 (sign_and_perform F P mode decode wallet m)
        unfolding sign_and_perform
        Costs-sign_and_perform mode m =
            search (metered, Costs-number_message, Costs-on_net, L.perform_once)

        Costs-send_transaction :
            (mode : BroadcastMode) (to : F.Address) (value : ℤ) (n : ℕ) (params : Bytes)
            (gas : GasParams)
            → Costs world_meter 1 (send_transaction F P mode decode wallet to value n params gas)
        unfolding send_transaction
        Costs-send_transaction mode to value n params gas =
            search (metered, Costs-with_gas_limit, Costs-sign_and_perform)

        pub Costs-transact :
            (to : F.Address) (value : ℤ) (method : Method) (params : Params F.Address)
            (options : TxOptions)
            → Costs world_meter 1
                (transact F P (wallet_signer F wallet) to value method params options decode)
        unfolding transact wallet_signer
        Costs-transact to value method params options = search (metered, Costs-send_transaction)
