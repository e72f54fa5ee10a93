-- ===== src/Provider/Query/Extract.antt =====
-- provider/src/query.rs: what is read out of the answer to an ABCI query.
use rust_recall.Base.{
  ℕ, ◌<>◌, Bool, Option, none, some, Result, ok, err, context, map_ok, ◌>>=◌, if◌then◌else◌, ◌==◌,
  not,
}
use rust_recall.Base.Text.{show}
use rust_recall.Fvm.{GasEstimate, ActorState, AbciQuery, DeliverTx, Fvm}
use rust_recall.Provider.Response.{encode_data}

-- `Code::is_err`
abbrev pub is_err_code : ℕ → Bool
is_err_code code = not (code == 0)

-- `extract`
unfoldable pub extract : {T : Type 0} → AbciQuery → (AbciQuery → Result T) → Result T
extract res f =
    if is_err_code res.code
    then err ("query returned non-zero exit code: " <> show res.code <> "; " <> res.info)
    else f res

module _ (F : Fvm) where
  abbrev pub is_not_found : AbciQuery → Bool
  is_not_found res = res.code == F.usr_not_found

  -- `extract_opt`
  unfoldable pub extract_opt : {T : Type 0} → AbciQuery → (AbciQuery → Result T) → Result (Option T)
  unfolding extract
  extract_opt res f = if is_not_found res then ok none else map_ok some (extract res f)

  unfoldable pub parse_deliver_tx : AbciQuery → Result DeliverTx
  unfolding encode_data
  parse_deliver_tx res = do
    bz ← context (F.decode_bytes res.value) "failed to decode IPLD as bytes"
    proto ← context (F.decode_proto bz) "failed to deserialize ResponseDeliverTx from proto bytes"
    tx ← context (F.deliver_tx_of proto) "failed to create DeliverTx from proto response"
    ok (record tx { data_bytes = encode_data F tx.data_bytes })

  actor_of : AbciQuery → Result (ℕ × ActorState)
  actor_of res = do
    state ← context (F.decode_actor_state res.value) "failed to decode state"
    id ← context (F.decode_actor_id res.key) "failed to decode ID"
    ok (id, state)

  unfoldable pub extract_actor_state : AbciQuery → Result (Option (ℕ × ActorState))
  unfolding extract_opt actor_of
  extract_actor_state res = extract_opt res actor_of

  of_estimate : GasEstimate → Result ℕ
  of_estimate estimate =
      if estimate.exit_code == 0
      then ok estimate.gas_limit
      else err (
          "estimate gas returned non-zero exit code: "
          <> show estimate.exit_code
          <> "; "
          <> estimate.info)

  -- The gas limit of an estimate, unless the estimated run failed.
  unfoldable pub extract_gas_limit : AbciQuery → Result ℕ
  unfolding extract of_estimate
  extract_gas_limit res = do
    estimate ←
        extract res
          (λ r. context (F.decode_gas_estimate r.value) "failed to decode GasEstimate from query")
    of_estimate estimate
