-- ===== src/Provider/JsonRpc.antt =====
-- provider/src/json_rpc.rs: the provider over a CometBFT RPC client and an object API.
pub mod Broadcasts
pub mod Rpc
pub mod Objects
pub mod Answered
pub mod Proxy
pub mod Connect
pub mod Commit
use rust_recall.Base.{
  ℕ, String, ◌<>◌, Bool, true, false, Option, none, some, Result, err, context, map_err,
  if◌then◌else◌,
}
use rust_recall.Base.Action.{Action, ◌>>=◌, lift, pure, fail, map_result}
use rust_recall.Base.Text.{is_empty}
use rust_recall.Fvm.{
  Bytes, FvmQuery, FvmQueryHeight, height, StateParams, AbciQuery, DeliverTx, ChainMessage, signed,
  ipc, Fvm,
}
use rust_recall.Provider.Message.{serialize_message}
use rust_recall.Provider.Tx.{
  BroadcastMode, async, sync, commit, TxResult, pending_result, committed_result,
}
use rust_recall.Provider.Traits.{Provider}
use rust_recall.Provider.Query.{get_state_params}
use rust_recall.Provider.Query.Extract.{is_err_code}
use Rpc.{Client, CommitResponse, TxResponse}
use Objects.{get_node_addr, upload, download, size}

-- `format_err`
unfoldable pub format_err : String → String → String
format_err info log =
    if is_empty log then info else if is_empty info then log else info <> "\n\n" <> log

pub record JsonRpcProvider : Type 0 where
  pub chain_id : ℕ
  -- the URL of the object API
  pub objects : Option String

module _ (F : Fvm) (C : Client F) where
  -- `QueryProvider::query`
  unfoldable pub query : FvmQuery F.Address F.Cid → FvmQueryHeight → Action C.Net AbciQuery
  query q at = do
    encoded ← lift (context (F.encode_query q) "failed to encode query")
    block ← lift (context (C.height_of (F.height_number at)) "failed to conver to Height")
    C.abci_query encoded block

  -- `retry(new_backoff_policy(10), ...)`, with the error that it displays
  abbrev with_retries : {A : Type 0} → String → Action C.Net A → Action C.Net A
  with_retries message m = C.retry 10 (map_result (λ r. map_err r (λ e. message <> e)) m)

  -- The receipt of a transaction that was found, if it is a signed message
  unfoldable receipt_of :
      Bytes
      → TxResponse
      → C.Header
      → C.BlockResults
      → StateParams
      → ChainMessage F.SignedMessage
      → Action C.Net F.Receipt
  receipt_of hash tx_res header block_results state_params (signed message) = lift (
      context
        (C.to_eth_receipt message tx_res (C.to_cumulative block_results) header
          state_params.base_fee)
        "failed to convert to receipt")
  receipt_of hash tx_res header block_results state_params ipc =
      fail ("transaction is not convertible to Ethereum (tx_hash=" <> C.show_hash hash <> ")")

  -- `TxProvider::eth_tx_receipt`
  unfoldable pub eth_tx_receipt : Bytes → Bool → Action C.Net F.Receipt
  unfolding query get_state_params receipt_of
  eth_tx_receipt hash prove = do
    tx_res ←
        with_retries ("cometbft transaction not found (tx_hash=" <> C.show_hash hash <> "): ")
          (C.tx hash prove)
    header ←
        with_retries ("transaction block header not found (tx_hash=" <> C.show_hash hash <> "): ")
          (C.header tx_res.height)
    block_results ← C.block_results tx_res.height
    state_params ← get_state_params F (record { query = query }) (height (C.header_height header))
    msg ← lift (C.to_chain_message tx_res.tx)
    receipt_of hash tx_res header block_results state_params.value msg

  -- The error that a commit response reports, if any: that of the check comes first.
  commit_error : CommitResponse → Option String
  commit_error r =
      if is_err_code r.check_tx.code
      then some (format_err r.check_tx.info r.check_tx.log)
      else if is_err_code r.deliver_tx.code
      then some (format_err r.deliver_tx.info r.deliver_tx.log)
      else none

  -- The minimal transaction that the modes `async` and `sync` return.
  eth_transaction : ℕ → ChainMessage F.SignedMessage → Result F.Transaction
  eth_transaction chain_id (signed message) =
      context (F.to_eth_transaction message chain_id) "failed to convert to eth transaction"
  eth_transaction chain_id ipc = err "message is not signed"

  module _ {T : Type 0} (decode : DeliverTx → Result T) where
    broadcast_async : Bytes → F.Transaction → Action C.Net (TxResult F T)
    broadcast_async bytes tx = do _ ← C.broadcast_tx_async bytes; pure (pending_result F tx)

    broadcast_sync : Bytes → F.Transaction → Action C.Net (TxResult F T)
    broadcast_sync bytes tx = do
      response ← C.broadcast_tx_sync bytes
      if is_err_code response.code
          then fail (format_err "" response.log)
          else pure (pending_result F tx)

    -- The data and the receipt of a transaction that was delivered.
    finish_commit : CommitResponse → Action C.Net (TxResult F T)
    finish_commit response = do
      returned ←
          lift
            (context (decode response.deliver_tx) "error decoding data from deliver_tx in commit")
      receipt ← eth_tx_receipt response.hash false
      pure (committed_result F receipt (some returned))

    check_commit : CommitResponse → Action C.Net (TxResult F T)
    unfolding commit_error format_err finish_commit
    check_commit response = elim (commit_error response) [
      | some message ↦ fail message
      | none ↦ finish_commit response
    ]

    broadcast_commit : Bytes → Action C.Net (TxResult F T)
    unfolding check_commit
    broadcast_commit bytes = C.broadcast_tx_commit bytes >>= check_commit

    -- `TxProvider::perform`
    unfoldable pub perform :
        ℕ → ChainMessage F.SignedMessage → BroadcastMode → Action C.Net (TxResult F T)
    unfolding serialize_message broadcast_async broadcast_sync broadcast_commit eth_transaction
    perform chain_id message mode = do
      bytes ← lift (serialize_message F message)
      elim mode [
        | async ↦ lift (eth_transaction chain_id message) >>= broadcast_async bytes
        | sync ↦ lift (eth_transaction chain_id message) >>= broadcast_sync bytes
        | commit ↦ broadcast_commit bytes
      ]

  -- `JsonRpcProvider` as a provider
  unfoldable pub json_rpc_provider : JsonRpcProvider → Provider F C.Net
  unfolding query perform eth_tx_receipt get_node_addr upload download size
  json_rpc_provider p = record {
    queries = record { query = query };
    perform = λ message mode decode. perform decode p.chain_id message mode;
    eth_tx_receipt = eth_tx_receipt;
    node_addr = get_node_addr F C p.objects;
    upload = upload F C p.objects;
    download = download F C p.objects;
    size = size F C p.objects;
  }
