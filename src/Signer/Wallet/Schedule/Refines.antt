-- ===== src/Signer/Wallet/Schedule/Refines.antt =====
-- The tasks that share a wallet, as users of one allocator of sequences.
use rust_recall.Base.{List, [], ◌∷◌, Result, ◌≡◌, ◌⊎◌, inl, inr}
use rust_recall.Fvm.{DeliverTx, Fvm}
use rust_recall.Provider.Tx.{BroadcastMode}
use rust_recall.Provider.Traits.{Provider}
use rust_recall.Signer.Wallet.{Wallet}
use rust_recall.Signer.Wallet.Schedule.{System, Event, step, run}
use rust_recall.Signer.Wallet.Schedule.Recorded.{
  Recording, recording, Allocator, Issues, allocator, step-Step,
}

pub data Reach (F : Fvm) (wallet : Wallet F) (a : Allocator F) : Allocator F → Type 0 where
  here : Reach F wallet a a
  further : {b c : Allocator F} → Reach F wallet a b → Issues F wallet b c → Reach F wallet a c

module _ (F : Fvm) {N T : Type 0} (P : Provider F N) (mode : BroadcastMode)
    (decode : DeliverTx → Result T) (wallet : Wallet F) where
  extend :
      (a b c : Allocator F)
      → Reach F wallet a b
      → (c ≡ b) ⊎ Issues F wallet b c
      → Reach F wallet a c
  extend a b c r (inl e) = rw e r
  extend a b c r (inr i) = further r i

  run-from :
      (a : Allocator F) (events : List (Event F)) (s : System F (Recording F N))
      → Reach F wallet a (allocator F wallet s)
      → Reach F wallet a (allocator F wallet (run F (recording F P) mode decode wallet events s))
  unfolding run
  run-from a [] s r = r
  run-from a (e ∷ events) s r =
      let t = step F (recording F P) mode decode wallet e s in
      run-from a events t (
        extend a (allocator F wallet s) (allocator F wallet t) r
          (step-Step F P mode decode wallet e s))

  -- However the tasks of a wallet are interleaved, and whatever fails, they implement an allocator
  -- of sequences over the signed messages that the provider is given: a run is a number of its
  -- steps. Each of them gives out the next sequence, modulo 2^64, once; either a message that is
  -- signed with this sequence is given to the provider, or a message with this sequence cannot be
  -- signed. Nothing else happens to the wallet's sequence, and nothing else is broadcast.
  pub run-Reach :
      (events : List (Event F)) (s : System F (Recording F N))
      → Reach F wallet
          (allocator F wallet s)
          (allocator F wallet (run F (recording F P) mode decode wallet events s))
  run-Reach events s = run-from (allocator F wallet s) events s here
