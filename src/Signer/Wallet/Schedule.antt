-- ===== src/Signer/Wallet/Schedule.antt =====
-- Tasks that share one wallet through its clones. A task first has its gas limit estimated, without
-- the lock, and then signs and broadcasts while it holds the lock on the sequence, so nothing else
-- reads or writes the sequence in between: a run is a sequence of such steps, in any order.
pub mod Recorded
pub mod Refines
pub mod Sequences
use rust_recall.Base.{
  ℕ, zero, suc, ◌+◌, ◌%◌, ◌<◌, ◌≡◌, ◌≢◌, List, [], ◌∷◌, ◌++◌, some, Result, ok, arith, ◌==◌,
  if◌then◌else◌, length, length-append, get_elem?,
}
use rust_recall.Base.Text.{u64_mod}
use rust_recall.Fvm.{Message, DeliverTx, Fvm}
use rust_recall.Provider.Tx.{BroadcastMode}
use rust_recall.Provider.Traits.{Provider}
use rust_recall.Signer.World.{World}
use rust_recall.Signer.Wallet.{Wallet, with_gas_limit, number_message, sign_and_perform}
use rust_recall.Signer.Wallet.Sequence.{sign_and_perform-CountedUp, with_gas_limit_cells}

module _ (F : Fvm) where
  -- The runs of tasks are no code of the program: a turn calls what `send_transaction` calls then.
  pub data Phase : Type 0 where
    -- the message, before and after its gas limit is known
    starting ready : Message F.Address → Phase
    finished : Phase

  pub record System (N : Type 0) : Type 0 where
    pub world : World N
    pub phase : ℕ → Phase

  -- `task` estimates, or signs and broadcasts.
  pub data Event : Type 0 where
    estimate submit : ℕ → Event

  module _ {N T : Type 0} (P : Provider F N) (mode : BroadcastMode) (decode : DeliverTx → Result T)
      (wallet : Wallet F) where
    abbrev set_phase : ℕ → Phase → (ℕ → Phase) → ℕ → Phase
    set_phase i p f j = if i == j then p else f j

    abbrev after_estimate : Result (Message F.Address) → Phase
    after_estimate (ok m) = ready m
    after_estimate _ = finished

    estimate_step : ℕ → Phase → System N → System N
    estimate_step i (starting m) s =
        let (r, w) = with_gas_limit F P.queries m s.world in
        record s { world = w; phase = set_phase i (after_estimate r) s.phase }
    estimate_step i _ s = s

    submit_step : ℕ → Phase → System N → System N
    submit_step i (ready m) s = record {
      world = (sign_and_perform F P mode decode wallet m s.world).1;
      phase = set_phase i finished s.phase;
    }
    submit_step i _ s = s

    unfoldable pub step : Event → System N → System N
    unfolding estimate_step submit_step
    step (estimate i) s = estimate_step i (s.phase i) s
    step (submit i) s = submit_step i (s.phase i) s

    unfoldable pub run : List Event → System N → System N
    run [] s = s
    run (e ∷ events) s = run events (step e s)
