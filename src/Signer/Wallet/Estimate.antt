-- ===== src/Signer/Wallet/Estimate.antt =====
-- Transactions whose gas limit is left to the chain.
use rust_recall.Base.{ℕ, String, ◌<>◌, Result, ok, err, ◌≡◌, ◌≢◌, arith}
use rust_recall.Base.Action.{>>=-ok}
use rust_recall.Base.Int.{ℤ}
use rust_recall.Base.Text.{show}
use rust_recall.Fvm.{
  Bytes, Message, DeliverTx, AbciQuery, GasEstimate, estimate_gas, committed, signed, Fvm,
}
use rust_recall.Provider.Message.{GasParams, set_limits}
use rust_recall.Provider.Tx.{BroadcastMode}
use rust_recall.Provider.Traits.{Provider}
use rust_recall.Provider.Query.{estimate_gas_limit}
use rust_recall.Provider.Query.Extract.{extract_gas_limit}
use rust_recall.Signer.World.{World}
use rust_recall.Signer.Wallet.{
  Wallet, new_message, sign_message, with_gas_limit, sign_and_perform, send_transaction,
}
use rust_recall.Signer.Wallet.Sequence.{
  CountedUp, sign_and_perform-CountedUp, sign_and_perform-perform, gas_limit-set_limits,
}

abbrev pub exit_error : GasEstimate → String
exit_error estimate =
    "estimate gas returned non-zero exit code: " <> show estimate.exit_code <> "; " <> estimate.info

module _ (F : Fvm) {N T : Type 0} (P : Provider F N) (mode : BroadcastMode)
    (decode : DeliverTx → Result T) (wallet : Wallet F) (to : F.Address) (value : ℤ)
    (method_num : ℕ) (params : Bytes) (gas : GasParams) (w : World N) where
  -- The message that is estimated: that of the transaction, with a sequence of 0
  abbrev pub unsent : Message F.Address
  unsent = new_message F wallet to value method_num params (set_limits gas)

  -- The chain's answer to the estimate, which leaves the network in the state `n`
  pub record HasEstimate (n : N) (estimate : GasEstimate) : Type 0 where
    pub no_limit : gas.gas_limit ≡ 0
    pub response : AbciQuery
    pub answers : P.queries.query (estimate_gas unsent) committed w.net ≡ (ok response, n)
    pub succeeds : response.code ≡ 0
    pub decodes : F.decode_gas_estimate response.value ≡ ok estimate

  with_gas_limit_estimated :
      (n : N) (estimate : GasEstimate)
      → HasEstimate n estimate
      → estimate.exit_code ≡ 0
      → with_gas_limit F P.queries unsent w
        ≡ (ok (record unsent { gas_limit = estimate.gas_limit }), record w { net = n })
  unfolding with_gas_limit estimate_gas_limit extract_gas_limit new_message
  with_gas_limit_estimated n estimate answer e = ground (
    arith,
    answer.no_limit,
    gas_limit-set_limits gas,
    answer.answers,
    answer.succeeds,
    answer.decodes,
  )

  with_gas_limit_unestimated :
      (n : N) (estimate : GasEstimate)
      → HasEstimate n estimate
      → estimate.exit_code ≢ 0
      → with_gas_limit F P.queries unsent w ≡ (err (exit_error estimate), record w { net = n })
  unfolding with_gas_limit estimate_gas_limit extract_gas_limit new_message
  with_gas_limit_unestimated n estimate answer e = ground (
    arith,
    answer.no_limit,
    gas_limit-set_limits gas,
    answer.answers,
    answer.succeeds,
    answer.decodes,
  )

  -- A transaction without a gas limit has the chain estimate its message, with gas prices that are
  -- raised to the minimum and a sequence of 0, on the committed state. If the estimated run succeeds,
  -- and this message can be signed with the estimated gas limit and the wallet's current sequence,
  -- it is, and what is signed goes to the provider, whose result it is; the sequence has been counted
  -- up.
  pub send_transaction_estimated :
      (n : N) (estimate : GasEstimate) (m : F.SignedMessage)
      → HasEstimate n estimate
      → estimate.exit_code ≡ 0
      → sign_message F wallet
          (record unsent { gas_limit = estimate.gas_limit; sequence = w.cells wallet.sequence })
        ≡ ok m
      → let sent = send_transaction F P mode decode wallet to value method_num params gas w in
        (sent.0 ≡ (P.perform (signed m) mode decode n).0)
        × (sent.1.net ≡ (P.perform (signed m) mode decode n).1)
        × CountedUp wallet.sequence w sent.1
  unfolding send_transaction
  send_transaction_estimated n estimate m answer e s =
      let msg = record unsent { gas_limit = estimate.gas_limit } in
      let u : World N = record w { net = n } in
      let (r, net) = sign_and_perform-perform F P mode decode wallet msg u m s in
      let counted = sign_and_perform-CountedUp F P mode decode wallet msg u in
      rw
        (>>=-ok (with_gas_limit F P.queries unsent) (sign_and_perform F P mode decode wallet) w
          (with_gas_limit_estimated n estimate answer e))
        (
          r,
          net,
          record { counted = counted.counted; others = counted.others; no_new = counted.no_new },
        )

  -- A transaction without a gas limit fails if the run that is estimated does, with the exit code and
  -- the information of the run in its error: the chain was asked once, nothing was signed or
  -- broadcast, and no sequence was taken.
  pub send_transaction_unestimated :
      (n : N) (estimate : GasEstimate)
      → HasEstimate n estimate
      → estimate.exit_code ≢ 0
      → send_transaction F P mode decode wallet to value method_num params gas w
        ≡ (err (exit_error estimate), record w { net = n })
  unfolding send_transaction
  send_transaction_unestimated n estimate answer e =
      ground (arith, with_gas_limit_unestimated n estimate answer e)
