-- ===== src/Sdk/Bucket/Download.antt =====
-- What `Bucket::get` writes.
use mathlib.Core.List.{append_assoc, append-nil}
use rust_recall.Base.{
  String, Option, none, some, List, [], ◌∷◌, ◌++◌, ◌≡◌, ap, ◌∙◌, sym, Result, ok, err, arith,
}
use rust_recall.Base.Action.{Action}
use rust_recall.Fvm.{Bytes, Fvm}
use rust_recall.Provider.Traits.{ByteStream, Provider}
use rust_recall.Sdk.Codecs.{Codecs}
use rust_recall.Sdk.Machine.{Machine}
use rust_recall.Sdk.Bucket.{GetOptions, Platform, copy_stream, open_object, get}

-- A writer that keeps what it is given.
abbrev pub keep : Bytes → Action Bytes (Unit {0})
keep chunk w = (ok tt, w ++ chunk)

abbrev pub concat : List Bytes → Bytes
concat [] = []
concat (chunk ∷ rest) = chunk ++ concat rest

-- A stream of chunks that ends, or fails at some point.
abbrev pub stream_of : List Bytes → Option (String × ByteStream) → ByteStream
stream_of [] none = []
stream_of [] (some (e, rest)) = err e ∷ rest
stream_of (chunk ∷ chunks) failure = ok chunk ∷ stream_of chunks failure

abbrev pub outcome : Option (String × ByteStream) → Result (Unit {0})
outcome none = ok tt
outcome (some (e, rest)) = err e

copy_stream-stream_of :
    (chunks : List Bytes) (failure : Option (String × ByteStream)) (w : Bytes)
    → copy_stream keep (stream_of chunks failure) w ≡ (outcome failure, w ++ concat chunks)
unfolding copy_stream
copy_stream-stream_of [] none w = ap (λ x. (ok tt, x)) (sym (append-nil w))
copy_stream-stream_of [] (some (e, rest)) w = ap (λ x. (err e, x)) (sym (append-nil w))
copy_stream-stream_of (chunk ∷ chunks) failure w =
    copy_stream-stream_of chunks failure (w ++ chunk)
    ∙ ap (λ x. (outcome failure, x)) (append_assoc w chunk (concat chunks))

module _ (F : Fvm) (K : Codecs F) (O : Platform) {N : Type 0} (bucket : Machine F) where
  -- Once the object is found and its stream is open, `get`, with a writer that keeps what it is
  -- given, writes the chunks that come before the
  -- first failure, in order, and no more; it succeeds exactly if the stream does not fail.
  pub get_written :
      (provider : Provider F N) (key : String) (options : GetOptions) (s t : N)
      (chunks : List Bytes) (failure : Option (String × ByteStream)) (w : Bytes)
      → open_object F K O bucket provider key options s ≡ (ok (stream_of chunks failure), t)
      → get F K O bucket provider key keep options (s, w)
        ≡ (outcome failure, (t, w ++ concat chunks))
  unfolding get
  get_written provider key options s t chunks failure w h =
      ground (arith, copy_stream-stream_of chunks failure w)
