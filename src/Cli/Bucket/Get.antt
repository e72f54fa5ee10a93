-- ===== src/Cli/Bucket/Get.antt =====
-- `bucket get`: what is written to standard output.
use mathlib.Core.List.{append_assoc, append-nil}
use rust_recall.Base.{
  String, Option, none, some, List, [], ◌∷◌, ◌++◌, map, unwrap_or, ◌≡◌, refl, ap, ◌∙◌, ok, arith,
}
use rust_recall.Fvm.{Bytes, Fvm}
use rust_recall.Provider.Traits.{ByteStream, Provider}
use rust_recall.Sdk.Bucket.{open_object, copy_stream}
use rust_recall.Sdk.Bucket.Download.{stream_of, outcome}
use rust_recall.Sdk.Network.{NetworkConfig}
use rust_recall.Cli.Shell.{Host, Shell, raw, write}
use rust_recall.Cli.Tx.{connect}
use rust_recall.Cli.Bucket.{BucketGetArgs}
use rust_recall.Cli.Bucket.Run.{run_get}

module _ (F : Fvm) (H : Host F) where
  copy_stream-raw :
      (chunks : List Bytes) (failure : Option (String × ByteStream)) (s : Shell F H)
      → copy_stream (λ chunk. write F H (raw chunk)) (stream_of chunks failure) s
        ≡ (outcome failure, record s { printed = s.printed ++ map raw chunks })
  unfolding copy_stream write
  copy_stream-raw [] none s = rw (append-nil s.printed) refl
  copy_stream-raw [] (some (e, rest)) s = rw (append-nil s.printed) refl
  copy_stream-raw (chunk ∷ chunks) failure s =
      copy_stream-raw chunks failure (record s { printed = s.printed ++ raw chunk ∷ [] })
      ∙ ap (λ o. (outcome failure, record s { printed = o }))
          (append_assoc s.printed (raw chunk ∷ []) (map raw chunks))

  -- `bucket get` writes the chunks of the object that come before the first failure of the stream,
  -- in order, as they are and nothing besides; it succeeds exactly if the stream does not fail. The
  -- stream is the one of the object API that `--object-api-url` names, or else the network's: the
  -- provider is made with it, and the object is found and its download begins.
  pub run_get-raw :
      (cfg : NetworkConfig F) (args : BucketGetArgs F) (s : Shell F H) {n : H.client.Net}
      {P : Provider F H.client.Net} (chunks : List Bytes) (failure : Option (String × ByteStream))
      → connect F H cfg (some (unwrap_or args.object_api_url cfg.object_api_url)) s ≡ (ok P, s)
      → open_object F H.codecs H.platform
          (record { address = args.address })
          P
          args.key
          (record { range = args.range; height = args.height })
          s.world.net
        ≡ (ok (stream_of chunks failure), n)
      → let done = run_get F H cfg args s in
        (done.0 ≡ outcome failure) × (done.1.printed ≡ s.printed ++ map raw chunks)
  unfolding run_get
  run_get-raw cfg args s {n} chunks failure c o =
      let t : Shell F H = record s { world = record s.world { net = n } } in
      ground (arith, copy_stream-raw chunks failure t)
