-- ===== src/Provider/JsonRpc/Rpc.antt =====
-- What provider/src/json_rpc.rs calls: the CometBFT RPC client (`tendermint_rpc::Client`), the
-- retries of the `backoff` crate, `reqwest`, and the conversions of `fendermint_eth_api`.
use rust_recall.Base.{ℕ, String, Bool, Option, Result}
use rust_recall.Base.Int.{ℤ}
use rust_recall.Base.Action.{Action}
use rust_recall.Fvm.{Bytes, AbciQuery, DeliverTx, ChainMessage, Fvm}
use rust_recall.Provider.Traits.{NodeAddr, UploadResponse, ByteStream}

pub record CheckTx : Type 0 where
  pub code : ℕ
  pub info : String
  pub log : String

pub record SyncResponse : Type 0 where
  pub code : ℕ
  pub log : String

pub record CommitResponse : Type 0 where
  pub check_tx : CheckTx
  pub deliver_tx : DeliverTx
  pub hash : Bytes

pub record TxResponse : Type 0 where
  pub height : ℕ
  pub tx : Bytes

pub data HttpRequest : Type 0 where
  -- url, value of the `Range` header
  get : String → Option String → HttpRequest
  -- url, the form's `size` text and its `data` part
  post_form : String → String → ByteStream → HttpRequest
  head : String → HttpRequest

pub record HttpResponse : Type 0 where
  pub is_success : Bool
  pub text : Result String
  pub node_addr : Result NodeAddr
  pub upload_response : Result UploadResponse
  -- the `content-length` header, and its value as a text
  pub content_length : Option (Result String)
  pub stream : ByteStream

pub record Client (F : Fvm) : Type 1 where
  -- the state of the network
  pub Net : Type 0
  pub abci_query : Bytes → ℕ → Action Net AbciQuery
  pub broadcast_tx_async : Bytes → Action Net (Unit {0})
  pub broadcast_tx_sync : Bytes → Action Net SyncResponse
  pub broadcast_tx_commit : Bytes → Action Net CommitResponse
  pub tx : Bytes → Bool → Action Net TxResponse
  pub Header : Type 0
  pub header : ℕ → Action Net Header
  pub header_height : Header → ℕ
  pub BlockResults : Type 0
  pub block_results : ℕ → Action Net BlockResults
  pub http : HttpRequest → Action Net HttpResponse
  -- `backoff::future::retry`, with the policy's maximal number of seconds
  pub retry : {A : Type 0} → ℕ → Action Net A → Action Net A
  -- `Height::try_from(u64)`
  pub height_of : ℕ → Result ℕ
  pub Cumulative : Type 0
  pub to_cumulative : BlockResults → Cumulative
  pub to_chain_message : Bytes → Result (ChainMessage F.SignedMessage)
  pub to_eth_receipt : F.SignedMessage → TxResponse → Cumulative → Header → ℤ → Result F.Receipt
  pub show_hash : Bytes → String
  -- `status`, by `node_info.network`
  pub status : Action Net String
