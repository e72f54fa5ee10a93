-- ===== src/Provider/Response.antt =====
-- provider/src/response.rs: the base64 layer that Tendermint puts around returned data.
pub mod Cid
use rust_recall.Base.{String, ◌<>◌, Result, ok, err, context, map_err, ◌>>=◌, if◌then◌else◌, ◌==◌}
use rust_recall.Base.Text.{show}
use rust_recall.Fvm.{Bytes, DeliverTx, Fvm}

module _ (F : Fvm) where
  unfoldable pub encode_data : Bytes → Bytes
  encode_data bytes = F.base64_encode bytes

  unfoldable pub decode_data : Bytes → Result Bytes
  decode_data bytes = do
    b64 ← context (F.from_utf8 bytes) "error parsing data as base64 string"
    context (F.base64_decode b64) "error parsing base64 to bytes"

  unfoldable pub decode_bytes : DeliverTx → Result Bytes
  unfolding decode_data
  decode_bytes tx =
      if tx.code == 0
      then decode_data tx.data_bytes
      else err ("error executing request: code=" <> show tx.code <> " message=" <> tx.info)

  unfoldable pub decode_empty : DeliverTx → Result (Unit {0})
  decode_empty tx = ok tt

  -- `decode_as::<T>`, for the codec and the name of `T`
  unfoldable pub decode_as : {T : Type 0} → (Bytes → Result T) → String → DeliverTx → Result T
  unfolding decode_data
  decode_as from_slice name tx = do
    bytes ← decode_data tx.data_bytes
    map_err (from_slice bytes) (λ e. "error parsing data as " <> name <> ": " <> e)
