-- ===== src/Provider/JsonRpc/Broadcasts.antt =====
-- How often the JSON RPC provider broadcasts.
use rust_recall.Base.{ℕ, ◌+◌, ◌≡◌, String, Bool, Option, none, some, Result, arith}
use rust_recall.Base.Action.{Action, fail}
use rust_recall.Base.Action.Meter.{Meter, Costs, Costs-moved, Costs-fail, metered}
use rust_recall.Fvm.{
  Bytes, FvmQuery, FvmQueryHeight, DeliverTx, ChainMessage, signed, ipc, StateParams, Fvm,
}
use rust_recall.Provider.Tx.{BroadcastMode, async, sync, commit}
use rust_recall.Provider.Traits.{ByteStream}
use rust_recall.Provider.Broadcasts.{BroadcastsOnce, Costs-get_state_params}
use rust_recall.Provider.JsonRpc.{
  JsonRpcProvider, query, with_retries, receipt_of, eth_tx_receipt, finish_commit, check_commit,
  broadcast_commit, broadcast_async, broadcast_sync, perform, json_rpc_provider,
}
use rust_recall.Provider.JsonRpc.Objects.{get_node_addr, upload, download, send}
use rust_recall.Provider.JsonRpc.Rpc.{Client, HttpRequest, CommitResponse, TxResponse}

module _ (F : Fvm) (C : Client F) (count : C.Net → ℕ) where
  -- A count of the broadcasts of a node's client: its three methods that broadcast count one more,
  -- whatever they return, and nothing else counts, nor does the repetition of what does not.
  pub record CountsBroadcasts : Type 1 where
    pub async_counts : (b : Bytes) (n : C.Net) → count (C.broadcast_tx_async b n).1 ≡ count n + 1
    pub sync_counts : (b : Bytes) (n : C.Net) → count (C.broadcast_tx_sync b n).1 ≡ count n + 1
    pub commit_counts : (b : Bytes) (n : C.Net) → count (C.broadcast_tx_commit b n).1 ≡ count n + 1
    pub query_keeps : (b : Bytes) (h : ℕ) (n : C.Net) → count (C.abci_query b h n).1 ≡ count n
    pub tx_keeps : (b : Bytes) (prove : Bool) (n : C.Net) → count (C.tx b prove n).1 ≡ count n
    pub header_keeps : (h : ℕ) (n : C.Net) → count (C.header h n).1 ≡ count n
    pub block_results_keeps : (h : ℕ) (n : C.Net) → count (C.block_results h n).1 ≡ count n
    pub http_keeps : (r : HttpRequest) (n : C.Net) → count (C.http r n).1 ≡ count n
    pub status_keeps : (n : C.Net) → count (C.status n).1 ≡ count n
    pub retry_keeps :
        {A : Type 0} (seconds : ℕ) (m : Action C.Net A)
        → ((n : C.Net) → count (m n).1 ≡ count n)
        → (n : C.Net) → count (C.retry seconds m n).1 ≡ count n

  abbrev pub broadcast_meter : Meter C.Net
  broadcast_meter = record {
    moved = λ k n m. count m ≡ count n + k;
    still = λ n. omega arith;
    further = λ j k s t u p q. omega arith;
  }

  module _ (L : CountsBroadcasts) where
    pub Costs-kept {ℓ} :
        {A : Type ℓ} (m : Action C.Net A)
        → ((n : C.Net) → count (m n).1 ≡ count n)
        → Costs broadcast_meter 0 m
    Costs-kept m h = Costs-moved broadcast_meter 0 m (λ n. omega (arith, h n))

    Costs-query :
        (q : FvmQuery F.Address F.Cid) (at : FvmQueryHeight)
        → Costs broadcast_meter 0 (query F C q at)
    unfolding query
    Costs-query q at = search (metered, Costs-kept, L.query_keeps)

    Costs-with_retries :
        {A : Type 0} (message : String) (m : Action C.Net A)
        → ((n : C.Net) → count (m n).1 ≡ count n)
        → Costs broadcast_meter 0 (with_retries F C message m)
    Costs-with_retries message m h = Costs-kept (with_retries F C message m) (L.retry_keeps 10 _ h)

    Costs-receipt_of :
        (hash : Bytes) (tx : TxResponse) (h : C.Header) (b : C.BlockResults) (params : StateParams)
        (message : ChainMessage F.SignedMessage)
        → Costs broadcast_meter 0 (receipt_of F C hash tx h b params message)
    unfolding receipt_of
    Costs-receipt_of hash tx h b params (signed m) = search (metered)
    Costs-receipt_of hash tx h b params ipc = search (metered)

    Costs-eth_tx_receipt :
        (hash : Bytes) (prove : Bool) → Costs broadcast_meter 0 (eth_tx_receipt F C hash prove)
    unfolding eth_tx_receipt
    Costs-eth_tx_receipt hash prove =
        search
          (
            metered, Costs-receipt_of, Costs-with_retries, Costs-kept, L.tx_keeps, L.header_keeps,
            L.block_results_keeps, Costs-get_state_params, Costs-query,
          )
          depth 14

    Costs-send :
        (request : HttpRequest) (message : String)
        → Costs broadcast_meter 0 (send F C request message)
    unfolding send
    Costs-send request message = search (metered, Costs-kept, L.http_keeps)

    Costs-get_node_addr : (url : Option String) → Costs broadcast_meter 0 (get_node_addr F C url)
    unfolding get_node_addr
    Costs-get_node_addr url = search (metered, Costs-send)

    Costs-upload :
        (url : Option String) (body : ByteStream) (size : ℕ)
        → Costs broadcast_meter 0 (upload F C url body size)
    unfolding upload
    Costs-upload url body size = search (metered, Costs-send)

    Costs-download :
        (url : Option String) (a : F.Address) (key : String) (range : Option String) (height : ℕ)
        → Costs broadcast_meter 0 (download F C url a key range height)
    unfolding download
    Costs-download url a key range height = search (metered, Costs-send)

    module _ {T : Type 0} (decode : DeliverTx → Result T) where
      Costs-finish_commit :
          (response : CommitResponse) → Costs broadcast_meter 0 (finish_commit F C decode response)
      unfolding finish_commit
      Costs-finish_commit response = search (metered, Costs-eth_tx_receipt)

      checked :
          (response : CommitResponse) (e : Option String)
          → Costs broadcast_meter 0
              (elim e [ some message ↦ fail message | none ↦ finish_commit F C decode response ])
      checked response (some message) = Costs-fail broadcast_meter 0 message
      checked response none = Costs-finish_commit response

      Costs-check_commit :
          (response : CommitResponse) → Costs broadcast_meter 0 (check_commit F C decode response)
      unfolding check_commit
      Costs-check_commit response = checked response _

      Costs-once {ℓ} :
          {A : Type ℓ} (m : Action C.Net A)
          → ((n : C.Net) → count (m n).1 ≡ count n + 1)
          → Costs broadcast_meter 1 m
      Costs-once m h = Costs-moved broadcast_meter 1 m h

      Costs-perform :
          (chain_id : ℕ) (message : ChainMessage F.SignedMessage) (mode : BroadcastMode)
          → Costs broadcast_meter 1 (perform F C decode chain_id message mode)
      unfolding perform broadcast_async broadcast_sync broadcast_commit
      Costs-perform chain_id message async = search (metered, Costs-once, L.async_counts)
      Costs-perform chain_id message sync = search (metered, Costs-once, L.sync_counts)
      Costs-perform chain_id message commit =
          search (metered, Costs-once, L.commit_counts, Costs-check_commit)

    -- The JSON RPC provider broadcasts once for each transaction, and never for anything else.
    pub json_rpc_provider-BroadcastsOnce :
        (p : JsonRpcProvider) → BroadcastsOnce F broadcast_meter (json_rpc_provider F C p)
    unfolding json_rpc_provider
    json_rpc_provider-BroadcastsOnce p = record {
      query_none = Costs-query;
      perform_once = λ message mode decode. Costs-perform decode p.chain_id message mode;
      node_addr_none = Costs-get_node_addr p.objects;
      upload_none = Costs-upload p.objects;
      download_none = Costs-download p.objects;
    }
