-- ===== src/Provider/Query/Laws.antt =====
-- What the query methods promise their callers.
use rust_recall.Base.{String, ◌≡◌, ◌↔◌, none, Result, ok, err, panic, context, ◌>>=◌, arith}
use rust_recall.Fvm.{Bytes, Message, AbciQuery, DeliverTx, FvmQueryHeight, call, Fvm, IsBase64}
use rust_recall.Provider.Traits.{QueryProvider}
use rust_recall.Provider.Response.{encode_data, decode_data, decode_bytes}
use rust_recall.Provider.Query.{call_actor}
use rust_recall.Provider.Query.Extract.{extract_actor_state}

context-bind {ℓ κ} :
    {A : Type ℓ} {B : Type κ} (r : Result A) (f : A → Result B) (m n : String) {b : B}
    → (r >>= f) ≡ ok b
    → (context r m >>= λ a. context (f a) n) ≡ ok b
context-bind (ok a) f m n h = rw h
context-bind (err e) f m n h = cc
context-bind (panic e) f m n h = cc

module _ (F : Fvm) where
  -- An actor's state is reported absent exactly when the query answers with the code "not found".
  pub extract_actor_state-none :
      (res : AbciQuery) → (extract_actor_state F res ≡ ok none) ↔ (res.code ≡ F.usr_not_found)
  unfolding extract_actor_state
  extract_actor_state-none res = ground arith

  module _ (base64 : IsBase64 F) where
    decode_data-encode_data : (b : Bytes) → decode_data F (encode_data F b) ≡ ok b
    unfolding decode_data encode_data
    decode_data-encode_data b =
        context-bind (F.from_utf8 (F.base64_encode b)) F.base64_decode _ _ (base64.decode-encode b)

    -- Where a query and the run of the message succeed and the answer can be decoded, a read-only
    -- call returns the bytes that the actor returned, if base64 decoding undoes encoding: the layer
    -- that the query puts on is taken off by `decode_bytes`.
    pub call_actor-decode_bytes :
        {N : Type 0} (P : QueryProvider F N) (m : Message F.Address) (at : FvmQueryHeight) (s : N)
        (res : AbciQuery) (t : N) (bz : Bytes) (proto : F.ProtoDeliverTx) (raw : DeliverTx)
        → P.query (call m) at s ≡ (ok res, t)
        → res.code ≡ 0
        → F.decode_bytes res.value ≡ ok bz
        → F.decode_proto bz ≡ ok proto
        → F.deliver_tx_of proto ≡ ok raw
        → raw.code ≡ 0
        → call_actor F P m at (decode_bytes F) s
          ≡ (ok (record { height = res.height; value = raw.data_bytes }), t)
    unfolding call_actor decode_bytes
    call_actor-decode_bytes P m at s res t bz proto raw q c d e f z =
        ground (arith, decode_data-encode_data raw.data_bytes)
