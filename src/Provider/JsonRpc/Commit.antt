-- ===== src/Provider/JsonRpc/Commit.antt =====
-- What `perform` and `eth_tx_receipt` promise in each broadcast mode.
use rust_recall.Base.{
  ◌⊎◌, ◌==◌, if◌then◌else◌, inl, inr, Result-cases, ℕ, String, ◌≡◌, ◌≢◌, refl, false, some, Result,
  ok, err, context, arith,
}
use rust_recall.Base.Action.{◌>>=◌, >>=-eq-ok, lift->>=-eq-ok, unless-eq-ok, lift, pure, fail}
use rust_recall.Provider.Query.Extract.{is_err_code}
use rust_recall.Fvm.{Bytes, DeliverTx, ChainMessage, signed, ipc, Fvm}
use rust_recall.Provider.Tx.{
  BroadcastMode, async, sync, commit, TxResult, pending_result, committed_result,
}
use rust_recall.Provider.JsonRpc.Rpc.{Client, SyncResponse, CommitResponse}
use rust_recall.Provider.JsonRpc.{
  format_err, perform, broadcast_commit, check_commit, finish_commit, eth_tx_receipt,
  eth_transaction, broadcast_async, broadcast_sync,
}

context-eq-ok {ℓ} : {A : Type ℓ} (r : Result A) (m : String) {a : A} → context r m ≡ ok a → r ≡ ok a
context-eq-ok r m h = ground arith

module _ (F : Fvm) (C : Client F) {T : Type 0} (decode : DeliverTx → Result T) where
  -- What the node was given and answered, and what is reported of it, by the broadcast mode, where
  -- the network goes from `s` to `t`
  abbrev pub Reports :
      ℕ → ChainMessage F.SignedMessage → BroadcastMode → C.Net → C.Net → TxResult F T → Type 0
  Reports chain_id message async s t r =
      (m : F.SignedMessage) × (tx : F.Transaction) × (bytes : Bytes) × (message ≡ signed m)
      × (F.encode_chain_message message ≡ ok bytes)
      × (F.to_eth_transaction m chain_id ≡ ok tx)
      × (C.broadcast_tx_async bytes s ≡ (ok tt, t))
      × (r ≡ pending_result F tx)
  Reports chain_id message sync s t r =
      (m : F.SignedMessage) × (tx : F.Transaction) × (bytes : Bytes) × (response : SyncResponse)
      × (message ≡ signed m)
      × (F.encode_chain_message message ≡ ok bytes)
      × (F.to_eth_transaction m chain_id ≡ ok tx)
      × (C.broadcast_tx_sync bytes s ≡ (ok response, t))
      × (response.code ≡ 0)
      × (r ≡ pending_result F tx)
  Reports chain_id message commit s t r =
      (bytes : Bytes) × (response : CommitResponse) × (u : C.Net) × (receipt : F.Receipt)
      × (value : T) × (F.encode_chain_message message ≡ ok bytes)
      × (C.broadcast_tx_commit bytes s ≡ (ok response, u))
      × (response.check_tx.code ≡ 0)
      × (response.deliver_tx.code ≡ 0)
      × (decode response.deliver_tx ≡ ok value)
      × (eth_tx_receipt F C response.hash false u ≡ (ok receipt, t))
      × (r ≡ committed_result F receipt (some value))

  finish_commit-eq-ok :
      (response : CommitResponse) (u t : C.Net) (r : TxResult F T)
      → finish_commit F C decode response u ≡ (ok r, t)
      → (receipt : F.Receipt) × (value : T) × (decode response.deliver_tx ≡ ok value)
        × (eth_tx_receipt F C response.hash false u ≡ (ok receipt, t))
        × (r ≡ committed_result F receipt (some value))
  unfolding finish_commit
  finish_commit-eq-ok response u t r h = elim (Result-cases (decode response.deliver_tx)) [
    | inl (value, e) ↦
        let (receipt, v, f, k) =
          >>=-eq-ok (eth_tx_receipt F C response.hash false)
            (λ x. pure (committed_result F x (some value))) u (rw e at h) in
        (receipt, value, e, ground arith, ground arith)
    | inr (inl (m, e)) ↦ absurd (ground arith)
    | inr (inr (m, e)) ↦ absurd (ground arith)
  ]

  broadcast_commit-Reports :
      (chain_id : ℕ) (message : ChainMessage F.SignedMessage) (bytes : Bytes) (s t : C.Net)
      (r : TxResult F T)
      → F.encode_chain_message message ≡ ok bytes
      → broadcast_commit F C decode bytes s ≡ (ok r, t)
      → Reports chain_id message commit s t r
  unfolding broadcast_commit
  broadcast_commit-Reports chain_id message bytes s t r encoded h =
      let (response, u, sent, k) =
        >>=-eq-ok (C.broadcast_tx_commit bytes) (check_commit F C decode) s h in
      let (receipt, value, d, f, e) = finish_commit-eq-ok response u t r (ground arith) in
      (bytes, response, u, receipt, value, encoded, sent, ground arith, ground arith, d, f, e)

  broadcast_async-Reports :
      (chain_id : ℕ) (m : F.SignedMessage) (bytes : Bytes) (s t : C.Net) (r : TxResult F T)
      → F.encode_chain_message (signed m) ≡ ok bytes
      → (lift (eth_transaction F C chain_id (signed m)) >>= broadcast_async F C decode bytes) s
        ≡ (ok r, t)
      → Reports chain_id (signed m) async s t r
  unfolding eth_transaction broadcast_async
  broadcast_async-Reports chain_id m bytes s t r encoded h =
      let (tx, e, k) =
        lift->>=-eq-ok
          (context (F.to_eth_transaction m chain_id) "failed to convert to eth transaction")
          (broadcast_async F C decode bytes) s h in
      let (x, u, sent, l) =
        >>=-eq-ok (C.broadcast_tx_async bytes) (λ _. pure (pending_result F tx)) s k in
      (m, tx, bytes, refl, encoded, context-eq-ok _ _ e, ground arith, ground arith)

  broadcast_sync-Reports :
      (chain_id : ℕ) (m : F.SignedMessage) (bytes : Bytes) (s t : C.Net) (r : TxResult F T)
      → F.encode_chain_message (signed m) ≡ ok bytes
      → (lift (eth_transaction F C chain_id (signed m)) >>= broadcast_sync F C decode bytes) s
        ≡ (ok r, t)
      → Reports chain_id (signed m) sync s t r
  unfolding eth_transaction broadcast_sync
  broadcast_sync-Reports chain_id m bytes s t r encoded h =
      let (tx, e, k) =
        lift->>=-eq-ok
          (context (F.to_eth_transaction m chain_id) "failed to convert to eth transaction")
          (broadcast_sync F C decode bytes) s h in
      let (response, u, sent, l) =
        >>=-eq-ok (C.broadcast_tx_sync bytes)
          (λ x.
            if is_err_code x.code then fail (format_err "" x.log) else pure (pending_result F tx))
          s k in
      let (success, n) =
        unless-eq-ok (is_err_code response.code) (format_err "" response.log)
          (pure (pending_result F tx)) u l in
      (
        m,
        tx,
        bytes,
        response,
        refl,
        encoded,
        context-eq-ok _ _ e,
        ground arith,
        ground arith,
        ground arith,
      )

  -- A transaction that `perform` accepts was given to the node in its encoded form, once, and the
  -- result reports what the node answered. In the modes `async` and `sync` it is pending, made from
  -- the signed message, without data; the node took it, without an error code in the mode `sync`. In
  -- the mode `commit` the answer has no error at the check or at the delivery, and the result holds
  -- the data decoded from its delivery and the receipt that is then found under its hash.
  pub perform-Reports :
      (chain_id : ℕ) (message : ChainMessage F.SignedMessage) (mode : BroadcastMode) (s t : C.Net)
      (r : TxResult F T)
      → perform F C decode chain_id message mode s ≡ (ok r, t)
      → Reports chain_id message mode s t r
  unfolding perform
  perform-Reports chain_id (signed m) async s t r h =
      elim (Result-cases (F.encode_chain_message (signed m))) [
        | inl (bytes, e) ↦ broadcast_async-Reports chain_id m bytes s t r e (ground arith)
        | inr (inl (x, e)) ↦ absurd (ground arith)
        | inr (inr (x, e)) ↦ absurd (ground arith)
      ]
  perform-Reports chain_id ipc async s t r h = absurd (ground arith)
  perform-Reports chain_id (signed m) sync s t r h =
      elim (Result-cases (F.encode_chain_message (signed m))) [
        | inl (bytes, e) ↦ broadcast_sync-Reports chain_id m bytes s t r e (ground arith)
        | inr (inl (x, e)) ↦ absurd (ground arith)
        | inr (inr (x, e)) ↦ absurd (ground arith)
      ]
  perform-Reports chain_id ipc sync s t r h = absurd (ground arith)
  perform-Reports chain_id message commit s t r h =
      elim (Result-cases (F.encode_chain_message message)) [
        | inl (bytes, e) ↦ broadcast_commit-Reports chain_id message bytes s t r e (ground arith)
        | inr (inl (m, e)) ↦ absurd (ground arith)
        | inr (inr (m, e)) ↦ absurd (ground arith)
      ]

  -- A commit that is encoded, and broadcast with an answer, and that the node rejects, at the check or
  -- at the delivery, is an error that shows the texts of the check if that failed, of the delivery
  -- otherwise. Nothing is decoded and no receipt is asked for: the network is left as the broadcast
  -- left it.
  pub perform_rejected :
      (chain_id : ℕ) (message : ChainMessage F.SignedMessage) (s t : C.Net) (bytes : Bytes)
      (response : CommitResponse)
      → F.encode_chain_message message ≡ ok bytes
      → C.broadcast_tx_commit bytes s ≡ (ok response, t)
      → (response.check_tx.code ≢ 0) ⊎ (response.deliver_tx.code ≢ 0)
      → let check = response.check_tx in
        let deliver = response.deliver_tx in
        perform F C decode chain_id message commit s ≡ (
          err (
              if check.code == 0
              then format_err deliver.info deliver.log
              else format_err check.info check.log),
          t,
        )
  unfolding perform
  perform_rejected chain_id message s t bytes response e b h = ground arith

  -- A message that is not signed, but can be encoded, is refused in the modes `async` and `sync`,
  -- before anything is sent.
  pub perform_unsigned :
      (chain_id : ℕ) (mode : BroadcastMode) (s : C.Net) (bytes : Bytes)
      → F.encode_chain_message ipc ≡ ok bytes
      → mode ≢ commit
      → perform F C decode chain_id ipc mode s ≡ (err "message is not signed", s)
  unfolding perform
  perform_unsigned chain_id mode s bytes e h = ground arith
