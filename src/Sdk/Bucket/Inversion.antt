-- ===== src/Sdk/Bucket/Inversion.antt =====
-- What a successful `Bucket::add_reader` and `Bucket::add_from_path` went through, over any provider.
use rust_recall.Base.{ℕ, ◌≤◌, ◌≡◌, String, ok, All, arith, ltb, map_err, unwrap_or, if◌then◌else◌}
use rust_recall.Base.Action.{
  Action, ◌>>=◌, lift, fail, >>=-eq-ok, lift->>=-eq-ok, lift-map_err->>=-eq-ok, unless-eq-ok,
}
use rust_recall.Base.Int.{pos}
use rust_recall.Actors.{Metadata, add_object, add_params}
use rust_recall.Fvm.{Bytes, Fvm}
use rust_recall.Provider.Traits.{Provider, UploadResponse, NodeAddr}
use rust_recall.Provider.Response.{decode_as}
use rust_recall.Provider.Tx.{TxResult}
use rust_recall.Signer.World.{World, on_net}
use rust_recall.Signer.Traits.{Signer}
use rust_recall.Sdk.Codecs.{Codecs, Object}
use rust_recall.Sdk.Call.{transact}
use rust_recall.Sdk.Machine.{Machine}
use rust_recall.Sdk.Bucket.{
  AddOptions, File, Reader, Platform, add_reader, broadcast_object, add_from_path,
  add_content_type_to_metadata,
}
use rust_recall.Sdk.Bucket.Metadata.{IsValid, validate_metadata, validate_metadata_iff}

on_net->>=-eq-ok :
    {N A B : Type 0} (m : Action N A) (f : A → Action (World N) B) (w : World N) {b : B}
    {v : World N}
    → (on_net m >>= f) w ≡ (ok b, v)
    → (a : A) × (n : N) × (m w.net ≡ (ok a, n)) × (f a (record w { net = n }) ≡ (ok b, v))
on_net->>=-eq-ok m f w h =
    let (a, t, e, k) = >>=-eq-ok (on_net m) f w h in (a, t.net, ground arith, ground arith)

module _ (F : Fvm) (K : Codecs F) (O : Platform) {N : Type 0} (bucket : Machine F)
    (provider : Provider F N) (signer : Signer F N) (from : F.Address) (key : String) where
  -- The transaction that adds an object, by the node that has it, its hashes and its metadata
  abbrev pub adds :
      ℕ → AddOptions → Metadata → NodeAddr → Bytes → Bytes → Action (World N) (TxResult F Object)
  adds size options metadata node object_hash metadata_hash =
      transact F provider signer bucket.address (unwrap_or options.token_amount (pos 0)) add_object
        (add_params node.node_id key object_hash metadata_hash size options.ttl metadata
          options.overwrite from)
        (record { broadcast_mode = options.broadcast_mode; gas_params = options.gas_params })
        (decode_as F K.added_object K.object_name)

  -- The hashes that the object API answers, and the node that answers, are in the transaction.
  pub broadcast_object-eq-ok :
      (size : ℕ) (options : AddOptions) (answer : UploadResponse) (w v : World N)
      (tx : TxResult F Object)
      → broadcast_object F K O bucket provider signer from key size options answer w ≡ (ok tx, v)
      → (object_hash metadata_hash : Bytes) × (node : NodeAddr) × (n : N) × (O.parse_hash
            answer.hash
          ≡ ok object_hash)
        × (O.parse_hash answer.metadata_hash ≡ ok metadata_hash)
        × (provider.node_addr w.net ≡ (ok node, n))
        × (adds size options options.metadata node object_hash metadata_hash (record w { net = n })
            ≡ (ok tx, v))
  unfolding broadcast_object
  broadcast_object-eq-ok size options answer w v tx h =
      let added = adds size options options.metadata in
      let with_hashes : Bytes → Bytes → Action (World N) (TxResult F Object) =
        λ metadata_hash object_hash.
          on_net provider.node_addr >>= (λ node. added node object_hash metadata_hash) in
      let (metadata_hash, e, k) =
        lift-map_err->>=-eq-ok (O.parse_hash answer.metadata_hash) _
          (λ x.
            lift (map_err (O.parse_hash answer.hash) (λ _. "Invalid object hash from server"))
            >>= with_hashes x)
          w h in
      let (object_hash, f, l) =
        lift-map_err->>=-eq-ok (O.parse_hash answer.hash) _ (with_hashes metadata_hash) w k in
      let (node, n, g, sent) =
        on_net->>=-eq-ok provider.node_addr (λ x. added x object_hash metadata_hash) w l in
      (object_hash, metadata_hash, node, n, f, e, g, sent)

  -- A reader is looked at, its metadata is valid and gets a content type, and its stream is uploaded.
  pub add_reader-eq-ok :
      (reader : Reader) (size : ℕ) (given : AddOptions) (w v : World N) (tx : TxResult F Object)
      → add_reader F K O bucket provider signer from key reader size given w ≡ (ok tx, v)
      → (buffer : Bytes) × (answer : UploadResponse) × (n : N) × All
          (IsValid O.max_metadata_key_size O.max_metadata_value_size)
          given.metadata
        × (reader.peek ≡ ok buffer)
        × (provider.upload reader.stream size w.net ≡ (ok answer, n))
        × (broadcast_object F K O bucket provider signer from key size
              (add_content_type_to_metadata given (O.infer_type buffer))
              answer
              (record w { net = n })
            ≡ (ok tx, v))
  unfolding add_reader
  add_reader-eq-ok reader size given w v tx h =
      let broadcast : Bytes → UploadResponse → Action (World N) (TxResult F Object) = λ buffer.
        broadcast_object F K O bucket provider signer from key size
          (add_content_type_to_metadata given (O.infer_type buffer)) in
      let uploads : Bytes → Action (World N) (TxResult F Object) =
        λ buffer. on_net (provider.upload reader.stream size) >>= broadcast buffer in
      let valid =
        validate_metadata O.max_metadata_key_size O.max_metadata_value_size given.metadata in
      let (buffer, e, k) = lift->>=-eq-ok reader.peek (λ x. lift valid >>= (λ _. uploads x)) w h in
      let (checked, f, l) = lift->>=-eq-ok valid (λ _. uploads buffer) w k in
      let (answer, n, g, m) =
        on_net->>=-eq-ok (provider.upload reader.stream size) (broadcast buffer) w l in
      (
        buffer,
        answer,
        n,
        (validate_metadata_iff O.max_metadata_key_size O.max_metadata_value_size given.metadata).0
            f,
        e,
        g,
        m,
      )

  pub add_from_path-eq-ok :
      (path : String) (options : AddOptions) (w v : World N) (tx : TxResult F Object)
      → add_from_path F K O bucket provider signer from key path options w ≡ (ok tx, v)
      → (resolved : String) × (file : File) × (size : ℕ) × (O.canonicalize path ≡ ok resolved)
        × (O.open_file resolved ≡ ok file)
        × (file.total_size ≡ ok size)
        × (size ≤ 5000000000)
        × (add_reader F K O bucket provider signer from key file.reader size options w ≡ (ok tx, v))
  unfolding add_from_path
  add_from_path-eq-ok path options w v tx h =
      let reads : File → ℕ → Action (World N) (TxResult F Object) = λ file size.
        if ltb 5000000000 size
        then fail "file exceeds maximum allowed size of 5 GB"
        else (lift file.rewind
            >>= (λ _. add_reader F K O bucket provider signer from key file.reader size options)) in
      let measures : File → Action (World N) (TxResult F Object) =
        λ file. lift file.total_size >>= reads file in
      let (resolved, e, k) =
        lift-map_err->>=-eq-ok (O.canonicalize path) _ (λ x. lift (O.open_file x) >>= measures) w
          h in
      let (file, f, l) = lift->>=-eq-ok (O.open_file resolved) measures w k in
      let (size, g, m) = lift->>=-eq-ok file.total_size (reads file) w l in
      let read : File → ℕ → Action (World N) (TxResult F Object) =
        λ file size. add_reader F K O bucket provider signer from key file.reader size options in
      let (small, n) =
        unless-eq-ok (ltb 5000000000 size) "file exceeds maximum allowed size of 5 GB"
          (lift file.rewind >>= (λ _. read file size)) w m in
      let (start, p, q) = lift->>=-eq-ok file.rewind (λ _. read file size) w n in
      (resolved, file, size, e, f, g, ground arith, q)
