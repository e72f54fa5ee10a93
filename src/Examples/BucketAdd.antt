-- ===== src/Examples/BucketAdd.antt =====
-- sdk/examples/bucket_add.rs. The waits for the network are left out.
use rust_recall.Base.{
  ℕ, ◌*◌, String, ◌<>◌, List, [], ◌∷◌, true, none, some, Result, ok, err, length, ◌==◌,
  if◌then◌else◌, ◌>>=◌ as ◌>>=ʳ◌,
}
use rust_recall.Base.Action.{Action, ◌>>=◌, lift, pure}
use rust_recall.Actors.{bucket}
use rust_recall.Fvm.{Bytes, committed, Fvm}
use rust_recall.Provider.Message.{default_gas_params}
use rust_recall.Provider.Tx.{commit, hash}
use rust_recall.Provider.Traits.{Provider}
use rust_recall.Signer.Key.{parse_secret_key}
use rust_recall.Signer.Wallet.{Wallet, ethereum, new_wallet, init_sequence, wallet_signer}
use rust_recall.Sdk.Codecs.{ObjectState}
use rust_recall.Sdk.Machine.{Machine, new_machine}
use rust_recall.Sdk.Bucket as Bucket
use rust_recall.Sdk.Bucket.{AddOptions, default_query_options}
use rust_recall.Sdk.Network.{NetworkConfig}
use rust_recall.Cli.Shell.{Host, Shell, on_world, on_node}
use rust_recall.Cli.Bucket.{utf8_or_empty}
use rust_recall.Cli.Tx.{connect}
use rust_recall.Examples.Process.{Crates, Process, argument, println, on_shell, testnet_config}
use rust_recall.Examples.TimehubPush.{default_options}

abbrev pub example_key : String
example_key = "foo/my_file"

abbrev pub add_options : AddOptions
add_options = record {
  ttl = none;
  metadata = ("foo", "bar") ∷ [];
  overwrite = true;
  token_amount = none;
  broadcast_mode = commit;
  gas_params = default_gas_params;
}

module _ (F : Fvm) (H : Host F) (X : Crates F H) where
  -- The example is refused without exactly one argument, and then reads the second one.
  unfoldable pub key_argument : List String → Result F.SecretKey
  key_argument args =
      if length args == 2
      then argument args 2 >>=ʳ parse_secret_key F H.keys
      else err "Usage: [private key]"

  -- `rng.fill(&mut random_data[..])`
  unfoldable pub random_data : ℕ → Action (Shell F H) Bytes
  random_data size s = let (bytes, rng) = X.fill size s.rng in (ok bytes, record s { rng = rng })

  unfoldable pub list_found : List (Bytes × ObjectState) → Action (Shell F H) (Unit {0})
  list_found [] = pure tt
  list_found (entry ∷ rest) =
      println F H (
        "Query result for key "
        <> utf8_or_empty F H entry.0
        <> ": "
        <> H.show_object_hash entry.1.hash)
      >>= (λ _. list_found rest)

  module _ (provider : Provider F H.client.Net) (wallet : Wallet F) (machine : Machine F) where
    -- A file of 1 MiB is added.
    unfoldable pub add_file : Action (Shell F H) (Unit {0})
    unfolding random_data
    add_file = do
      data_bytes ← random_data (1024 * 1024)
      path ← lift (X.temp_file data_bytes)
      tx ← on_world F H (
          Bucket.add_from_path F H.codecs H.platform machine provider (wallet_signer F wallet)
            wallet.addr example_key path add_options)
      _ ← println F H (
          "Added 1MiB file to bucket "
          <> F.show_address machine.address
          <> " with key "
          <> example_key)
      println F H ("Transaction hash: 0x" <> X.show_hash (hash F tx))

    unfoldable pub list_files : Action (Shell F H) (Unit {0})
    unfolding list_found
    list_files = do
      found ← on_node F H (
          Bucket.query F H.codecs H.platform machine provider.queries
            (record default_query_options { prefix = "foo/" }))
      list_found found.objects

    -- The object is written to an empty file, whose first ten bytes are then read.
    unfoldable pub download_file : Action (Shell F H) (Unit {0})
    download_file = do
      path ← lift X.new_file
      _ ← println F H ("Downloading object to " <> path)
      _ ← lift (X.open_rw path)
      stream ← on_node F H (
          Bucket.open_object F H.codecs H.platform machine provider example_key
            (record { range = some "0-99"; height = committed }))
      let (written, content) = Bucket.copy_stream X.write_all stream []
      _ ← lift written
      _ ← lift (X.read_exact 10 content)
      println F H ("Successfully read first 10 bytes of " <> path)

    unfoldable pub delete_file : Action (Shell F H) (Unit {0})
    delete_file = do
      tx ← on_world F H (
          Bucket.delete F H.codecs H.platform machine provider (wallet_signer F wallet) wallet.addr
            example_key default_options)
      println F H
          ("Deleted object with key " <> example_key <> " at tx 0x" <> X.show_hash (hash F tx))

  -- The work of the example, once there is a wallet with a sequence
  unfoldable pub use_bucket : Provider F H.client.Net → Wallet F → Action (Shell F H) (Unit {0})
  unfolding add_file list_files download_file delete_file
  use_bucket provider wallet = do
    (machine, created) ←
        on_world F H (
          new_machine F H.codecs bucket provider (wallet_signer F wallet) none []
            default_gas_params)
    _ ← println F H ("Created new bucket " <> F.show_address machine.address)
    _ ← println F H ("Transaction hash: 0x" <> X.show_hash (hash F created))
    _ ← add_file provider wallet machine
    _ ← list_files provider wallet machine
    _ ← download_file provider wallet machine
    delete_file provider wallet machine

  unfoldable pub bucket_example : F.SecretKey → NetworkConfig F → Action (Shell F H) (Unit {0})
  bucket_example pk cfg = do
    provider ← connect F H cfg (some cfg.object_api_url)
    wallet ← on_world F H (new_wallet F pk ethereum cfg.subnet_id)
    _ ← on_world F H (init_sequence F wallet provider.queries)
    use_bucket provider wallet

  unfoldable pub main : List String → Action (Process F H) (Unit {0})
  main args = do
    pk ← lift (key_argument args)
    cfg ← testnet_config F H
    on_shell F H (bucket_example pk cfg)
