-- ===== src/Provider/Traits.antt =====
-- The required methods of the provider traits: `QueryProvider::query`, `TxProvider`,
-- `ObjectProvider` (provider/src/query.rs, tx.rs, object.rs, provider.rs). `N` is the state of the
-- network behind the provider.
use rust_recall.Base.{ℕ, String, Bool, Option, List, Result}
use rust_recall.Base.Action.{Action}
use rust_recall.Fvm.{Bytes, FvmQuery, FvmQueryHeight, AbciQuery, DeliverTx, ChainMessage, Fvm}
use rust_recall.Provider.Tx.{BroadcastMode, TxResult}

-- The part of iroh's `NodeAddr` that the source reads.
pub record NodeAddr : Type 0 where
  pub node_id : Bytes

pub record UploadResponse : Type 0 where
  pub hash : String
  pub metadata_hash : String

-- A response body: the chunks of its stream, each received or failed.
abbrev pub ByteStream : Type 0
ByteStream = List (Result Bytes)

pub record QueryProvider (F : Fvm) (N : Type 0) : Type 0 where
  pub query : FvmQuery F.Address F.Cid → FvmQueryHeight → Action N AbciQuery

pub record Provider (F : Fvm) (N : Type 0) : Type 1 where
  pub queries : QueryProvider F N
  pub perform :
      {T : Type 0}
      → ChainMessage F.SignedMessage
      → BroadcastMode
      → (DeliverTx → Result T)
      → Action N (TxResult F T)
  pub eth_tx_receipt : Bytes → Bool → Action N F.Receipt
  pub node_addr : Action N NodeAddr
  pub upload : ByteStream → ℕ → Action N UploadResponse
  pub download : F.Address → String → Option String → ℕ → Action N ByteStream
  pub size : F.Address → String → ℕ → Action N ℕ
