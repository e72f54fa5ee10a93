-- ===== src/Sdk/Bucket.antt =====
-- sdk/src/machine/bucket.rs: the machine that stores objects. Progress bars are left out.
pub mod Metadata
pub mod Download
pub mod Inversion
pub mod Added
pub mod Upload
use rust_recall.Base.{
  ℕ, String, ◌<>◌, Bool, true, false, Option, none, some, List, [], ◌∷◌, Result, ok, err, panic,
  ok_or, ltb, map_err, unwrap_or, if◌then◌else◌,
}
use rust_recall.Base.Int.{ℤ, pos}
use rust_recall.Base.Action.{Action, ◌>>=◌, lift, pure, fail}
use rust_recall.Actors.{
  add_object, delete_object, get_object, list_objects, update_object_metadata as update_method,
  add_params, delete_params, get_params, list_params, update_metadata_params,
}
use rust_recall.Actors as Actors
use rust_recall.Fvm.{Bytes, DeliverTx, FvmQueryHeight, committed, Fvm}
use rust_recall.Provider.Message.{GasParams}
use rust_recall.Provider.Tx.{BroadcastMode, TxResult}
use rust_recall.Provider.Response.{decode_empty, decode_as}
use rust_recall.Provider.Traits.{ByteStream, UploadResponse, QueryProvider, Provider}
use rust_recall.Signer.World.{World, on_net}
use rust_recall.Signer.Traits.{Signer}
use rust_recall.Sdk.Codecs.{Object, ListObjectsReturn, Codecs}
use rust_recall.Sdk.Call.{TxOptions, decode_with, read_actor, transact}
use rust_recall.Sdk.Credits.Convert.{insert}
use rust_recall.Sdk.Machine.{Machine}
use Metadata.{validate_metadata, validate_metadata_optional}

-- The most bytes of an object from a file
abbrev pub max_object_length : ℕ
max_object_length = 5000000000

pub record AddOptions : Type 0 where
  pub ttl : Option ℤ
  pub metadata : Actors.Metadata
  pub overwrite : Bool
  pub token_amount : Option ℤ
  pub broadcast_mode : BroadcastMode
  pub gas_params : GasParams

pub record GetOptions : Type 0 where
  pub range : Option String
  pub height : FvmQueryHeight

pub record QueryOptions : Type 0 where
  pub prefix : String
  pub delimiter : String
  pub start_key : Option Bytes
  pub limit : ℕ
  pub height : FvmQueryHeight

-- `QueryOptions::default`
abbrev pub default_query_options : QueryOptions
default_query_options = record {
  prefix = "";
  delimiter = "/";
  start_key = none;
  limit = 0;
  height = committed;
}

-- An `AsyncRead`, by the 40 bytes that a peek leaves in the buffer, and the chunks of its stream
pub record Reader : Type 0 where
  pub peek : Result Bytes
  pub stream : ByteStream

-- An open file: the position at its end, the return to its start, and its content
pub record File : Type 0 where
  pub total_size : Result ℕ
  pub rewind : Result (Unit {0})
  pub reader : Reader

-- The file system, the crates `infer` (by mime types) and `iroh` (by the bytes of a hash), and the
-- constants of the bucket actor
pub record Platform : Type 0 where
  pub canonicalize : String → Result String
  pub open_file : String → Result File
  pub infer_type : Bytes → Option String
  pub parse_hash : String → Result Bytes
  pub max_metadata_key_size : ℕ
  pub max_metadata_value_size : ℕ

abbrev pub add_content_type_to_metadata : AddOptions → Option String → AddOptions
add_content_type_to_metadata options content_type = record options {
  metadata =
      insert "content-type" (unwrap_or content_type "application/octet-stream") options.metadata;
}

-- The loop of `get` over the stream: a chunk that was received is written, a failure ends it.
unfoldable pub copy_stream :
    {W : Type 0} → (Bytes → Action W (Unit {0})) → ByteStream → Action W (Unit {0})
copy_stream write_all [] = pure tt
copy_stream write_all (ok chunk ∷ rest) = write_all chunk >>= (λ _. copy_stream write_all rest)
copy_stream write_all (err e ∷ rest) = fail e
copy_stream write_all (panic e ∷ rest) = lift (panic e)

module _ (F : Fvm) (K : Codecs F) (O : Platform) where
  unfoldable pub decode_get : DeliverTx → Result (Option Object)
  decode_get = decode_with F K.object "error parsing as Option<Object>"

  unfoldable pub decode_object_list : DeliverTx → Result ListObjectsReturn
  decode_object_list = decode_with F K.object_list "error parsing as ListObjectsReturn"

  module _ {N : Type 0} (bucket : Machine F) where
    -- Once the object is uploaded: the transaction that adds it
    unfoldable pub broadcast_object :
        Provider F N
        → Signer F N
        → F.Address
        → String
        → ℕ
        → AddOptions
        → UploadResponse
        → Action (World N) (TxResult F Object)
    broadcast_object provider signer from key size options upload_response = do
      metadata_hash ← lift (
          map_err (O.parse_hash upload_response.metadata_hash)
            (λ _. "Invalid metadata hash from server"))
      object_hash ←
          lift
            (map_err (O.parse_hash upload_response.hash) (λ _. "Invalid object hash from server"))
      node_addr ← on_net provider.node_addr
      transact F provider signer bucket.address (unwrap_or options.token_amount (pos 0)) add_object
          (add_params node_addr.node_id key object_hash metadata_hash size options.ttl
            options.metadata options.overwrite from)
          (record { broadcast_mode = options.broadcast_mode; gas_params = options.gas_params })
          (decode_as F K.added_object K.object_name)

    unfoldable pub add_reader :
        Provider F N
        → Signer F N
        → F.Address
        → String
        → Reader
        → ℕ
        → AddOptions
        → Action (World N) (TxResult F Object)
    unfolding broadcast_object
    add_reader provider signer from key reader size given = do
      buffer ← lift reader.peek
      _ ← lift (validate_metadata O.max_metadata_key_size O.max_metadata_value_size given.metadata)
      let options = add_content_type_to_metadata given (O.infer_type buffer)
      upload_response ← on_net (provider.upload reader.stream size)
      broadcast_object provider signer from key size options upload_response

    unfoldable pub add_from_path :
        Provider F N
        → Signer F N
        → F.Address
        → String
        → String
        → AddOptions
        → Action (World N) (TxResult F Object)
    add_from_path provider signer from key path options = do
      resolved ← lift (map_err (O.canonicalize path) (λ e. "failed to resolve path: " <> e))
      file ← lift (O.open_file resolved)
      total_size ← lift file.total_size
      if ltb max_object_length total_size
          then fail "file exceeds maximum allowed size of 5 GB"
          else (lift file.rewind
              >>= (λ _. add_reader provider signer from key file.reader total_size options))

    unfoldable pub delete :
        Provider F N
        → Signer F N
        → F.Address
        → String
        → TxOptions
        → Action (World N) (TxResult F (Unit {0}))
    delete provider signer from key options =
        transact F provider signer bucket.address (pos 0) delete_object (delete_params key from)
          options (decode_empty F)

    unfoldable pub update_object_metadata :
        Provider F N
        → Signer F N
        → F.Address
        → String
        → List (String × Option String)
        → TxOptions
        → Action (World N) (TxResult F (Unit {0}))
    update_object_metadata provider signer from key metadata options = do
      _ ←
          lift
            (validate_metadata_optional O.max_metadata_key_size O.max_metadata_value_size metadata)
      transact F provider signer bucket.address (pos 0) update_method
          (update_metadata_params key metadata from) options (decode_empty F)

    -- The answers that `get` waits for before it writes: the object's record and the stream
    unfoldable pub open_object : Provider F N → String → GetOptions → Action N ByteStream
    open_object provider key options = do
      params ← lift (F.serialize (get_params key))
      found ←
          read_actor F provider.queries bucket.address get_object params options.height decode_get
      object ← lift (ok_or found ("object not found for key '" <> (key <> "'")))
      provider.download bucket.address key options.range (F.height_number options.height)

    -- `get`; the writer has a state of its own.
    unfoldable pub get :
        {W : Type 0}
        → Provider F N
        → String
        → (Bytes → Action W (Unit {0}))
        → GetOptions
        → Action (N × W) (Unit {0})
    get provider key write_all options s =
        let (opened, n) = open_object provider key options s.0 in
        elim opened [
          | ok stream ↦ let (r, w) = copy_stream write_all stream s.1 in (r, (n, w))
          | err e ↦ (err e, (n, s.1))
          | panic e ↦ (panic e, (n, s.1))
        ]

    unfoldable pub query : QueryProvider F N → QueryOptions → Action N ListObjectsReturn
    query provider options = do
      params ← lift (
          F.serialize
            (list_params options.prefix options.delimiter options.start_key options.limit))
      read_actor F provider bucket.address list_objects params options.height decode_object_list
