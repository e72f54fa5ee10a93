-- ===== src/Signer/Wallet/Sequence.antt =====
-- How `Wallet::send_transaction` counts: the sequence that it signs, and the cell that holds it.
use rust_recall.Base.{inl, inr, Result-cases, ℕ, ◌+◌, ◌%◌, ◌≡◌, ◌≢◌, Result, ok, arith}
use rust_recall.Base.Int.{ℤ}
use rust_recall.Base.Action.{>>=-ok, >>=-eq-ok}
use rust_recall.Base.Text.{u64_mod}
use rust_recall.Fvm.{Bytes, Message, DeliverTx, signed, Fvm}
use rust_recall.Provider.Message.{GasParams, set_limits}
use rust_recall.Provider.Tx.{BroadcastMode, TxResult}
use rust_recall.Provider.Traits.{Provider}
use rust_recall.Signer.World.{World}
use rust_recall.Signer.Wallet.{
  Wallet, with_gas_limit, sign_and_perform, send_transaction, new_message, sign_message,
}

pub gas_limit-set_limits : (g : GasParams) → (set_limits g).gas_limit ≡ g.gas_limit
unfolding set_limits
gas_limit-set_limits g = ground arith

-- The cell `i` has been counted up, with wrap-around, and no other cell has changed.
pub record CountedUp {N : Type 0} (i : ℕ) (w v : World N) : Type 0 where
  pub counted : v.cells i ≡ (w.cells i + 1) % u64_mod
  pub others : (j : ℕ) → i ≢ j → v.cells j ≡ w.cells j
  pub no_new : v.next ≡ w.next

module _ (F : Fvm) {N T : Type 0} (P : Provider F N) (mode : BroadcastMode)
    (decode : DeliverTx → Result T) where
  -- Signing and broadcasting counts the wallet's own cell up by one, modulo 2^64, and leaves the
  -- other cells, whether or not either succeeds.
  pub sign_and_perform-CountedUp :
      (wallet : Wallet F) (m : Message F.Address) (w : World N)
      → CountedUp wallet.sequence w (sign_and_perform F P mode decode wallet m w).1
  unfolding sign_and_perform
  sign_and_perform-CountedUp wallet m w = record {
    counted = ground arith;
    others = λ j h. ground arith;
    no_new = ground arith;
  }

  sign_and_perform-eq-ok :
      (wallet : Wallet F) (msg : Message F.Address) (w v : World N) (r : TxResult F T)
      → sign_and_perform F P mode decode wallet msg w ≡ (ok r, v)
      → (m : F.SignedMessage) × (s : N) × (P.perform (signed m) mode decode s ≡ (ok r, v.net))
  unfolding sign_and_perform
  sign_and_perform-eq-ok wallet msg w v r h =
      elim (Result-cases
        (sign_message F wallet (record msg { sequence = w.cells wallet.sequence }))) [
          | inl (m, e) ↦ (m, w.net, ground arith)
          | inr (inl (x, e)) ↦ absurd (ground arith)
          | inr (inr (x, e)) ↦ absurd (ground arith)
        ]

  pub with_gas_limit_cells :
      (m : Message F.Address) (w : World N)
      → ((with_gas_limit F P.queries m w).1.cells ≡ w.cells)
        × ((with_gas_limit F P.queries m w).1.next ≡ w.next)
  unfolding with_gas_limit
  with_gas_limit_cells m w = ground arith

  pub sign_and_perform-perform :
      (wallet : Wallet F) (msg : Message F.Address) (w : World N) (m : F.SignedMessage)
      → sign_message F wallet (record msg { sequence = w.cells wallet.sequence }) ≡ ok m
      → let done = sign_and_perform F P mode decode wallet msg w in
        (done.0 ≡ (P.perform (signed m) mode decode w.net).0)
        × (done.1.net ≡ (P.perform (signed m) mode decode w.net).1)
  unfolding sign_and_perform
  sign_and_perform-perform wallet msg w m e = ground arith

  with_gas_limit_given :
      (m : Message F.Address) (w : World N)
      → m.gas_limit ≢ 0
      → with_gas_limit F P.queries m w ≡ (ok m, w)
  unfolding with_gas_limit
  with_gas_limit_given m w h = ground arith

  -- A transaction that succeeds is one that the provider performed.
  pub send_transaction-eq-ok :
      (wallet : Wallet F) (to : F.Address) (value : ℤ) (method_num : ℕ) (params : Bytes)
      (gas : GasParams) (w v : World N) (r : TxResult F T)
      → send_transaction F P mode decode wallet to value method_num params gas w ≡ (ok r, v)
      → (m : F.SignedMessage) × (s : N) × (P.perform (signed m) mode decode s ≡ (ok r, v.net))
  unfolding send_transaction
  send_transaction-eq-ok wallet to value method_num params gas w v r h =
      let msg = new_message F wallet to value method_num params (set_limits gas) in
      let (m, u, _, k) =
        >>=-eq-ok (with_gas_limit F P.queries msg) (sign_and_perform F P mode decode wallet) w h in
      sign_and_perform-eq-ok wallet m u v r k

  -- With a gas limit of its own the message goes on to be signed.
  pub send_transaction_given :
      (wallet : Wallet F) (to : F.Address) (value : ℤ) (method_num : ℕ) (params : Bytes)
      (gas : GasParams) (w : World N)
      → gas.gas_limit ≢ 0
      → send_transaction F P mode decode wallet to value method_num params gas w
        ≡ sign_and_perform F P mode decode wallet
            (new_message F wallet to value method_num params (set_limits gas))
            w
  unfolding send_transaction
  send_transaction_given wallet to value method_num params gas w h =
      let msg = new_message F wallet to value method_num params (set_limits gas) in
      >>=-ok (with_gas_limit F P.queries msg) (sign_and_perform F P mode decode wallet) w
        (with_gas_limit_given msg w (unfold new_message in rw gas_limit-set_limits h))

  -- A transaction with a gas limit of its own, whose message can be signed, is signed with the wallet's current sequence and gas
  -- prices of at least the minimum, and what is signed goes to the provider: the result is the
  -- provider's, and the sequence has been counted up.
  pub send_transaction-perform :
      (wallet : Wallet F) (to : F.Address) (value : ℤ) (method_num : ℕ) (params : Bytes)
      (gas : GasParams) (w : World N) (m : F.SignedMessage)
      → gas.gas_limit ≢ 0
      → sign_message F wallet
          (record (new_message F wallet to value method_num params (set_limits gas)) {
            sequence = w.cells wallet.sequence;
          })
        ≡ ok m
      → let sent = send_transaction F P mode decode wallet to value method_num params gas w in
        (sent.0 ≡ (P.perform (signed m) mode decode w.net).0)
        × (sent.1.net ≡ (P.perform (signed m) mode decode w.net).1)
        × CountedUp wallet.sequence w sent.1
  send_transaction-perform wallet to value method_num params gas w m h e =
      let msg = new_message F wallet to value method_num params (set_limits gas) in
      let (r, n) = sign_and_perform-perform wallet msg w m e in
      rw (send_transaction_given wallet to value method_num params gas w h)
        (r, n, sign_and_perform-CountedUp wallet msg w)
