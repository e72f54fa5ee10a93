-- ===== src/Cli/Broadcasts/Bucket.antt =====
-- How often the commands of buckets broadcast.
use rust_recall.Base.{ℕ, String, [], ◌∷◌, ok, err, panic}
use rust_recall.Base.Action.{Action}
use rust_recall.Base.Action.Meter.{Meter, Costs, Costs-none, metered}
use rust_recall.Fvm.{Fvm}
use rust_recall.Provider.Traits.{ByteStream, Provider}
use rust_recall.Provider.Broadcasts.{BroadcastsOnce}
use rust_recall.Provider.JsonRpc.Broadcasts.{CountsBroadcasts, broadcast_meter}
use rust_recall.Signer.World.{on_net}
use rust_recall.Signer.Wallet.{Wallet, wallet_signer}
use rust_recall.Signer.Wallet.Broadcasts.{world_meter, Costs-on_net, Costs-transact}
use rust_recall.Sdk.Bucket as SdkBucket
use rust_recall.Sdk.Machine as Machine
use rust_recall.Sdk.Network.{NetworkConfig}
use rust_recall.Cli.Bucket as Bucket
use rust_recall.Cli.Bucket.{
  BucketCommands, BucketCreateArgs, BucketAddArgs, BucketDeleteArgs, BucketGetArgs, BucketQueryArgs,
  BucketMetadataArgs,
}
use rust_recall.Cli.Options.{AddressArgs}
use rust_recall.Cli.Bucket.Run as Run
use rust_recall.Cli.Bucket.Run.{
  run_list, run_add, run_delete, write_object, run_get, run_query, run_metadata, handle_bucket,
}
use rust_recall.Cli.Shell.{Host, Shell, raw, write}
use rust_recall.Cli.Broadcasts.{shell_meter, Costs-write, broadcasting}
use rust_recall.Cli.Broadcasts.Commands.{Costs-print_created}
use rust_recall.Cli.Broadcasts.Connected.{node, connected}

module _ {F : Fvm} where
  abbrev pub bucket_broadcasts : BucketCommands F → ℕ
  bucket_broadcasts (Bucket.create args) = 1
  bucket_broadcasts (Bucket.add args) = 1
  bucket_broadcasts (Bucket.delete args) = 1
  bucket_broadcasts (Bucket.metadata args) = 1
  bucket_broadcasts _ = 0

module _ (F : Fvm) (H : Host F) (count : H.client.Net → ℕ) (L : CountsBroadcasts F H.client count)
    (cfg : NetworkConfig F) where
  abbrev M : Meter H.client.Net
  M = broadcast_meter F H.client count

  abbrev ShellCosts {ℓ} : {A : Type ℓ} → ℕ → Action (Shell F H) A → Type ℓ
  ShellCosts k m = Costs (shell_meter F H M) k m

  Costs-copy_stream :
      (stream : ByteStream)
      → ShellCosts 0 (SdkBucket.copy_stream (λ chunk. write F H (raw chunk)) stream)
  unfolding SdkBucket.copy_stream
  Costs-copy_stream [] = search (broadcasting)
  Costs-copy_stream (ok chunk ∷ rest) =
      Costs-none (shell_meter F H M) (Costs-write F H M (raw chunk)) (λ _. Costs-copy_stream rest)
  Costs-copy_stream (err e ∷ rest) = search (broadcasting)
  Costs-copy_stream (panic e ∷ rest) = search (broadcasting)

  module _ (P : Provider F H.client.Net) (l : BroadcastsOnce F M P) where
    Costs-run_create : (args : BucketCreateArgs F) → ShellCosts 1 (Run.run_create F H cfg args P)
    unfolding Run.run_create Machine.new_machine Machine.deploy_machine
    Costs-run_create args = search (broadcasting, l, Costs-print_created) depth 14

    Costs-run_list : (args : AddressArgs F) → ShellCosts 0 (run_list F H cfg args P)
    unfolding run_list Machine.list_machines
    Costs-run_list args = search (broadcasting, l) depth 14

    uploaded :
        (body : ByteStream) (size : ℕ) → Costs (world_meter M) 0 (on_net (P.upload body size))
    uploaded body size = Costs-on_net M (l.upload_none body size)

    addressed : Costs (world_meter M) 0 (on_net P.node_addr)
    addressed = Costs-on_net M l.node_addr_none

    Costs-add_reader :
        (w : Wallet F) (b : Machine.Machine F) (from : F.Address) (key : String)
        (reader : SdkBucket.Reader) (size : ℕ) (options : SdkBucket.AddOptions)
        → Costs (world_meter M) 1 (
            SdkBucket.add_reader F H.codecs H.platform b P
              (wallet_signer F w)
              from
              key
              reader
              size
              options)
    unfolding SdkBucket.add_reader SdkBucket.broadcast_object
    Costs-add_reader w b from key reader size options =
        search (metered, uploaded, addressed, Costs-transact, l) depth 16

    Costs-add_from_path :
        (w : Wallet F) (b : Machine.Machine F) (from : F.Address) (key path : String)
        (options : SdkBucket.AddOptions)
        → Costs (world_meter M) 1 (
            SdkBucket.add_from_path F H.codecs H.platform b P
              (wallet_signer F w)
              from
              key
              path
              options)
    unfolding SdkBucket.add_from_path
    Costs-add_from_path w b from key path options = search (broadcasting, Costs-add_reader) depth 14

    Costs-run_add : (args : BucketAddArgs F) → ShellCosts 1 (run_add F H cfg args P)
    unfolding run_add
    Costs-run_add args = search (broadcasting, l, Costs-add_from_path) depth 14

    Costs-run_delete : (args : BucketDeleteArgs F) → ShellCosts 1 (run_delete F H cfg args P)
    unfolding run_delete SdkBucket.delete
    Costs-run_delete args = search (broadcasting, l) depth 14

    Costs-write_object : (args : BucketGetArgs F) → ShellCosts 0 (write_object F H args P)
    unfolding write_object SdkBucket.open_object
    Costs-write_object args = search (broadcasting, l, l.download_none, Costs-copy_stream) depth 14

    Costs-run_query : (args : BucketQueryArgs F) → ShellCosts 0 (run_query F H args P)
    unfolding run_query SdkBucket.query
    Costs-run_query args = search (broadcasting, l) depth 14

    Costs-run_metadata : (args : BucketMetadataArgs F) → ShellCosts 1 (run_metadata F H cfg args P)
    unfolding run_metadata SdkBucket.update_object_metadata
    Costs-run_metadata args = search (broadcasting, l) depth 14

  pub Costs-handle_bucket :
      (c : BucketCommands F) → ShellCosts (bucket_broadcasts c) (handle_bucket F H cfg c)
  unfolding handle_bucket run_get
  Costs-handle_bucket (Bucket.create args) =
      search (connected F H count L cfg, Costs-run_create, node F H count L)
  Costs-handle_bucket (Bucket.list args) =
      search (connected F H count L cfg, Costs-run_list, node F H count L)
  Costs-handle_bucket (Bucket.add args) =
      search (connected F H count L cfg, Costs-run_add, node F H count L)
  Costs-handle_bucket (Bucket.delete args) =
      search (connected F H count L cfg, Costs-run_delete, node F H count L)
  Costs-handle_bucket (Bucket.get args) =
      search (connected F H count L cfg, Costs-write_object, node F H count L)
  Costs-handle_bucket (Bucket.query args) =
      search (connected F H count L cfg, Costs-run_query, node F H count L)
  Costs-handle_bucket (Bucket.metadata args) =
      search (connected F H count L cfg, Costs-run_metadata, node F H count L)
