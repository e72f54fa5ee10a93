-- ===== src/Sdk/Bucket/Added.antt =====
-- What a successful `Bucket::add_from_path` has done, through the JSON RPC provider.
use mathlib.Core.Path.{subst}
use rust_recall.Base.{ℕ, ◌≤◌, ◌≡◌, String, ◌<>◌, some, none, ok, All, unwrap_or, if◌then◌else◌}
use rust_recall.Base.Int.{pos}
use rust_recall.Base.Text.{str_eq, show}
use rust_recall.Actors.{Metadata, add_object, add_params}
use rust_recall.Fvm.{Bytes, Fvm}
use rust_recall.Provider.Traits.{UploadResponse, NodeAddr}
use rust_recall.Provider.Response.{decode_as}
use rust_recall.Provider.Tx.{TxResult}
use rust_recall.Provider.JsonRpc.{JsonRpcProvider, json_rpc_provider}
use rust_recall.Provider.JsonRpc.Answered.{Answered, upload-eq-ok, get_node_addr-eq-ok}
use rust_recall.Provider.JsonRpc.Rpc.{Client, HttpResponse, get, post_form}
use rust_recall.Signer.World.{World}
use rust_recall.Signer.Traits.{Signer}
use rust_recall.Sdk.Codecs.{Codecs, Object}
use rust_recall.Sdk.Call.{transact}
use rust_recall.Sdk.Credits.Convert.Lookup.{lookup, lookup-insert}
use rust_recall.Sdk.Machine.{Machine}
use rust_recall.Sdk.Bucket.{AddOptions, File, Platform, add_from_path, add_content_type_to_metadata}
use rust_recall.Sdk.Bucket.Metadata.{IsValid}
use rust_recall.Sdk.Bucket.Inversion.{broadcast_object-eq-ok, add_reader-eq-ok, add_from_path-eq-ok}

-- What was done to add an object, through the object API and then the chain
pub record Added (F : Fvm) (K : Codecs F) (O : Platform) (C : Client F) (p : JsonRpcProvider)
    (bucket : Machine F) (signer : Signer F C.Net) (from : F.Address) (key path : String)
    (options : AddOptions) (w v : World C.Net) (tx : TxResult F Object) : Type 0 where
  -- the file at the path, of at most 5,000,000,000 bytes, and its first bytes
  pub resolved : String
  pub file : File
  pub size : ℕ
  pub buffer : Bytes
  pub is_resolved : O.canonicalize path ≡ ok resolved
  pub is_opened : O.open_file resolved ≡ ok file
  pub is_measured : file.total_size ≡ ok size
  pub is_small : size ≤ 5000000000
  pub is_peeked : file.reader.peek ≡ ok buffer
  -- its upload, whose answer names two hashes, and the node that answered
  pub url : String
  pub has_url : p.objects ≡ some url
  pub uploaded : HttpResponse
  pub located : HttpResponse
  pub answer : UploadResponse
  pub node : NodeAddr
  pub object_hash : Bytes
  pub metadata_hash : Bytes
  pub between : C.Net
  pub before : C.Net
  pub is_uploaded :
      Answered F C
        (post_form (url <> "v1/objects") (show size) file.reader.stream)
        uploaded
        w.net
        between
  pub is_answer : uploaded.upload_response ≡ ok answer
  pub is_hash : O.parse_hash answer.hash ≡ ok object_hash
  pub is_metadata_hash : O.parse_hash answer.metadata_hash ≡ ok metadata_hash
  pub is_located : Answered F C (get (url <> "v1/node") none) located between before
  pub is_node : located.node_addr ≡ ok node
  -- the metadata that was given, all of it valid, with the content type of the file
  pub is_valid : All (IsValid O.max_metadata_key_size O.max_metadata_value_size) options.metadata
  pub metadata : Metadata
  pub is_typed :
      (k : String)
      → lookup k metadata ≡ (
          if str_eq "content-type" k
          then some (unwrap_or (O.infer_type buffer) "application/octet-stream")
          else lookup k options.metadata)
  -- the transaction
  pub is_sent :
      transact F
        (json_rpc_provider F C p)
        signer
        bucket.address
        (unwrap_or options.token_amount (pos 0))
        add_object
        (add_params node.node_id key object_hash metadata_hash size options.ttl metadata
          options.overwrite from)
        (record { broadcast_mode = options.broadcast_mode; gas_params = options.gas_params })
        (decode_as F K.added_object K.object_name)
        (record w { net = before })
      ≡ (ok tx, v)

-- A file that is added has at most 5,000,000,000 bytes and valid metadata. The object API was given
-- its content once, with its size, and accepted it; then the node was asked for its address; and the
-- result is that of one transaction, which names the hashes that the upload was answered with, the
-- node, the size, and the given metadata with the content type that the first bytes of the file show,
-- or else the default one, whatever the given metadata says of it.
pub add_from_path-Added :
    (F : Fvm) (K : Codecs F) (O : Platform) (C : Client F) (p : JsonRpcProvider)
    (bucket : Machine F) (signer : Signer F C.Net) (from : F.Address) (key path : String)
    (options : AddOptions) (w v : World C.Net) (tx : TxResult F Object)
    → add_from_path F K O bucket (json_rpc_provider F C p) signer from key path options w
      ≡ (ok tx, v)
    → Added F K O C p bucket signer from key path options w v tx
unfolding json_rpc_provider
add_from_path-Added F K O C p bucket signer from key path options w v tx h =
    let P = json_rpc_provider F C p in
    let (resolved, file, size, e1, e2, e3, small, k) =
      add_from_path-eq-ok F K O bucket P signer from key path options w v tx h in
    let (buffer, answer, n, valid, e4, up, l) =
      add_reader-eq-ok F K O bucket P signer from key file.reader size options w v tx k in
    let tagged = add_content_type_to_metadata options (O.infer_type buffer) in
    let (object_hash, metadata_hash, node, m, e5, e6, located, sent) =
      broadcast_object-eq-ok F K O bucket P signer from key size tagged answer _ v tx l in
    let (url, uploaded, has_url, uploads, answered) =
      upload-eq-ok F C p.objects file.reader.stream size w.net n answer up in
    let (url', response, has_url', locates, found) =
      get_node_addr-eq-ok F C p.objects n m node located in
    let same : url' ≡ url = cc (has_url, has_url') in
    record {
      resolved = resolved;
      file = file;
      size = size;
      buffer = buffer;
      is_resolved = e1;
      is_opened = e2;
      is_measured = e3;
      is_small = small;
      is_peeked = e4;
      url = url;
      has_url = has_url;
      uploaded = uploaded;
      located = response;
      answer = answer;
      node = node;
      object_hash = object_hash;
      metadata_hash = metadata_hash;
      between = n;
      before = m;
      is_uploaded = uploads;
      is_answer = answered;
      is_hash = e5;
      is_metadata_hash = e6;
      is_located = subst (λ u. Answered F C (get (u <> "v1/node") none) response n m) same locates;
      is_node = found;
      is_valid = valid;
      metadata = tagged.metadata;
      is_typed = λ k. lookup-insert k "content-type" _ options.metadata;
      is_sent = sent;
    }
