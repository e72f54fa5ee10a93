-- ===== src/Signer/Wallet/Schedule/Recorded.antt =====
-- What the provider is given in a run of tasks: a provider that keeps every signed message that it is
-- told to broadcast, and the allocator of sequences that the tasks use.
use rust_recall.Base.{
  ℕ, ◌+◌, ◌%◌, List, [], ◌∷◌, ◌++◌, Result, ok, Result-cases, inl, inr, IsFailure, ◌≡◌, ◌⊎◌, refl,
  arith,
}
use rust_recall.Base.Action.{Action}
use rust_recall.Base.Text.{u64_mod}
use rust_recall.Fvm.{Message, DeliverTx, ChainMessage, signed, ipc, Fvm}
use rust_recall.Provider.Tx.{BroadcastMode}
use rust_recall.Provider.Traits.{Provider}
use rust_recall.Signer.Wallet.{Wallet, sign_message, sign_and_perform, with_gas_limit}
use rust_recall.Signer.World.{World}
use rust_recall.Provider.Query.{estimate_gas_limit}
use rust_recall.Signer.Wallet.Sequence.{with_gas_limit_cells}
use rust_recall.Signer.Wallet.Schedule.{
  Phase, starting, ready, System, Event, estimate, submit, step, estimate_step, submit_step,
}

module _ (F : Fvm) where
  -- The state of a network, and the signed messages that it was given, in order
  abbrev pub Recording : Type 0 → Type 0
  Recording N = N × List F.SignedMessage

  abbrev kept : {N A : Type 0} → Action N A → Action (Recording N) A
  kept m (n, given) = let (r, t) = m n in (r, (t, given))

  abbrev signed_of : ChainMessage F.SignedMessage → List F.SignedMessage
  signed_of (signed m) = m ∷ []
  signed_of ipc = []

  -- The same provider, which keeps what it is told to broadcast
  abbrev pub recording : {N : Type 0} → Provider F N → Provider F (Recording N)
  recording P = record {
    queries = record { query = λ q at. kept (P.queries.query q at) };
    perform = λ message mode decode s.
        let (r, t) = P.perform message mode decode s.0 in (r, (t, s.1 ++ signed_of message));
    eth_tx_receipt = λ hash prove. kept (P.eth_tx_receipt hash prove);
    node_addr = kept P.node_addr;
    upload = λ body size. kept (P.upload body size);
    download = λ address key range at. kept (P.download address key range at);
    size = λ address key at. kept (P.size address key at);
  }

  -- The signature of some message with this sequence
  abbrev pub SignedWith : Wallet F → ℕ → F.SignedMessage → Type 0
  SignedWith wallet n m =
      (message : Message F.Address) × (sign_message F wallet (record message { sequence = n })
        ≡ ok m)

  -- A message with this sequence cannot be signed.
  abbrev pub Unsigned : Wallet F → ℕ → Type 0
  Unsigned wallet n =
      (message : Message F.Address) × IsFailure
        (sign_message F wallet (record message { sequence = n }))

  -- An allocator knows the next sequence, and what was signed with those that it has given out.
  pub record Allocator : Type 0 where
    pub next : ℕ
    pub issued : List F.SignedMessage

  -- It gives out the next sequence, once: a message is signed with it, and issued, or cannot be.
  abbrev pub Issues : Wallet F → Allocator → Allocator → Type 0
  Issues wallet a b =
      (b.next ≡ (a.next + 1) % u64_mod)
      × (((m : F.SignedMessage) × SignedWith wallet a.next m × (b.issued ≡ a.issued ++ m ∷ []))
          ⊎ (Unsigned wallet a.next × (b.issued ≡ a.issued)))

  -- What the allocator sees of the tasks: the wallet's cell, and what the provider was given
  abbrev pub allocator : {N : Type 0} → Wallet F → System F (Recording N) → Allocator
  allocator wallet s = record { next = s.world.cells wallet.sequence; issued = s.world.net.1 }

module _ (F : Fvm) {N T : Type 0} (P : Provider F N) (mode : BroadcastMode)
    (decode : DeliverTx → Result T) (wallet : Wallet F) where
  abbrev Step : System F (Recording F N) → System F (Recording F N) → Type 0
  Step s t =
      (allocator F wallet t ≡ allocator F wallet s)
      ⊎ Issues F wallet (allocator F wallet s) (allocator F wallet t)

  submit_step-Step :
      (i : ℕ) (p : Phase F) (s : System F (Recording F N))
      → Step s (submit_step F (recording F P) mode decode wallet i p s)
  unfolding submit_step sign_and_perform
  submit_step-Step i (ready m) s =
      let next = s.world.cells wallet.sequence in
      elim (Result-cases (sign_message F wallet (record m { sequence = next }))) [
        | inl (x, e) ↦ inr (ground arith, inl (x, (m, e), ground arith))
        | inr (inl (x, e)) ↦ inr (ground arith, inr ((m, ground arith), ground arith))
        | inr (inr (x, e)) ↦ inr (ground arith, inr ((m, ground arith), ground arith))
      ]
  submit_step-Step i _ s = inl refl

  -- An estimate asks, and broadcasts nothing.
  with_gas_limit-given :
      (m : Message F.Address) (w : World (Recording F N))
      → (with_gas_limit F (recording F P).queries m w).1.net.1 ≡ w.net.1
  unfolding with_gas_limit estimate_gas_limit
  with_gas_limit-given m w = ground arith

  estimate_step-Step :
      (i : ℕ) (p : Phase F) (s : System F (Recording F N))
      → Step s (estimate_step F (recording F P) mode decode wallet i p s)
  unfolding estimate_step
  estimate_step-Step i (starting m) s = inl (
      rw
        (
          (with_gas_limit_cells F (recording F P) mode decode m s.world).0,
          with_gas_limit-given m s.world,
        )
        refl)
  estimate_step-Step i _ s = inl refl

  pub step-Step :
      (e : Event F) (s : System F (Recording F N))
      → Step s (step F (recording F P) mode decode wallet e s)
  unfolding step
  step-Step (estimate i) s = estimate_step-Step i (s.phase i) s
  step-Step (submit i) s = submit_step-Step i (s.phase i) s
