-- ===== src/Sdk/Bucket/Upload.antt =====
-- What `Bucket::add_from_path` and `Bucket::update_object_metadata` refuse.
use rust_recall.Base.{Bool-cases, ℕ, ◌<◌, ◌≡◌, String, ok, err, inl, inr, All, arith, ◌⊎◌, ltb}
use rust_recall.Fvm.{Bytes, Fvm}
use rust_recall.Provider.Traits.{Provider}
use rust_recall.Signer.World.{World}
use rust_recall.Signer.Traits.{Signer}
use rust_recall.Sdk.Codecs.{Codecs}
use rust_recall.Sdk.Machine.{Machine}
use rust_recall.Sdk.Bucket.{AddOptions, File, Platform, add_reader, add_from_path}
use rust_recall.Sdk.Bucket.Metadata.{IsValid, validate_metadata_refused}

module _ (F : Fvm) (K : Codecs F) (O : Platform) {N : Type 0} (bucket : Machine F) where
  -- A file above 5,000,000,000 bytes is refused, and so is one with metadata that is not valid, where
  -- the file can be opened, its size read, and its beginning looked at. Nothing is sent: the world is as before.
  pub add_from_path_refused :
      (provider : Provider F N) (signer : Signer F N) (from : F.Address)
      (key path resolved : String) (options : AddOptions) (w : World N) (file : File) (size : ℕ)
      → O.canonicalize path ≡ ok resolved
      → O.open_file resolved ≡ ok file
      → file.total_size ≡ ok size
      → file.rewind ≡ ok tt
      → (buffer : Bytes) → file.reader.peek ≡ ok buffer
      → (5000000000 < size)
        ⊎ ¬ (All (IsValid O.max_metadata_key_size O.max_metadata_value_size) options.metadata)
      → (e : String) × (add_from_path F K O bucket provider signer from key path options w
          ≡ (err e, w))
  unfolding add_from_path add_reader
  add_from_path_refused provider signer from key path resolved options w file size c o z r buffer p
        (inl big) =
      ("file exceeds maximum allowed size of 5 GB", ground arith)
  add_from_path_refused provider signer from key path resolved options w file size c o z r buffer p
        (inr invalid) =
      elim (Bool-cases (ltb 5000000000 size)) [
        | inl big ↦ ("file exceeds maximum allowed size of 5 GB", ground arith)
        | inr small ↦
            let (e, f) =
              validate_metadata_refused O.max_metadata_key_size O.max_metadata_value_size
                options.metadata invalid in
            (e, ground arith)
      ]
