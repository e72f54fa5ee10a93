-- ===== src/Provider/Tx.antt =====
-- provider/src/tx.rs
use rust_recall.Base.{String, Option, none, Result, ok, err, if◌then◌else◌}
use rust_recall.Base.Text.{str_eq}
use rust_recall.Fvm.{Bytes, Fvm}

pub data BroadcastMode : Type 0 where
  async sync commit : BroadcastMode

-- `BroadcastMode::from_str`
unfoldable pub parse_broadcast_mode : String → Result BroadcastMode
parse_broadcast_mode s =
    if str_eq s "async"
    then ok async
    else if str_eq s "sync"
    then ok sync
    else if str_eq s "commit"
    then ok commit
    else err "invalid broadcast mode"

module _ (F : Fvm) where
  pub data TxStatus : Type 0 where
    pending : F.Transaction → TxStatus
    committed : F.Receipt → TxStatus

  pub record TxResult (T : Type 0) : Type 0 where
    pub status : TxStatus
    pub returned : Option T

  -- `TxResult::pending` and `TxResult::committed`
  abbrev pub pending_result : {T : Type 0} → F.Transaction → TxResult T
  pending_result tx = record { status = TxStatus.pending tx; returned = none }

  abbrev pub committed_result : {T : Type 0} → F.Receipt → Option T → TxResult T
  committed_result receipt returned = record {
    status = TxStatus.committed receipt;
    returned = returned;
  }

  hash_of : TxStatus → Bytes
  hash_of (TxStatus.pending tx) = F.transaction_hash tx
  hash_of (TxStatus.committed receipt) = F.receipt_hash receipt

  -- `TxResult::hash`
  unfoldable pub hash : {T : Type 0} → TxResult T → Bytes
  unfolding hash_of
  hash r = hash_of r.status
