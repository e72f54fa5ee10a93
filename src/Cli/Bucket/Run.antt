-- ===== src/Cli/Bucket/Run.antt =====
-- cli/src/machine/bucket.rs: `handle_bucket`.
use rust_recall.Base.{none, some, unwrap_or}
use mathlib.Core.Option as Opt
use rust_recall.Base.Action.{Action, ◌>>=◌, lift}
use rust_recall.Base.Text.{as_bytes}
use rust_recall.Actors.{bucket}
use rust_recall.Fvm.{Fvm}
use rust_recall.Provider.Traits.{Provider}
use rust_recall.Signer.Wallet.{wallet_signer}
use rust_recall.Signer.Void.{void_signer}
use rust_recall.Sdk.Machine.{list_machines, new_machine}
use rust_recall.Sdk.Bucket as Bucket
use rust_recall.Sdk.Bucket.Metadata.{validate_metadata}
use rust_recall.Sdk.Credits.Convert.{collect}
use rust_recall.Sdk.Network.{NetworkConfig}
use rust_recall.Cli.Shell.{Host, Shell, raw, write, on_world, on_node, print_json, print_tx_json}
use rust_recall.Cli.Options.{AddressArgs, get_mode, to_tx_params, tx_options, get_address}
use rust_recall.Cli.Tx.{tx_signer, connect}
use rust_recall.Cli.Machine.{list_json, print_created}
use rust_recall.Cli.Bucket.{
  BucketCommands, create, list, add, delete, get, query, metadata, BucketCreateArgs, BucketAddArgs,
  BucketDeleteArgs, BucketGetArgs, BucketQueryArgs, BucketMetadataArgs, create_metadata, query_json,
}

module _ (F : Fvm) (H : Host F) where
  -- What each command does with a provider
  unfoldable pub run_create :
      NetworkConfig F → BucketCreateArgs F → Provider F H.client.Net → Action (Shell F H) (Unit {0})
  run_create cfg args provider = do
    signer ← on_world F H (tx_signer F args.private_key cfg.subnet_id args.tx_args provider)
    let given = create_metadata F args
    _ ← lift (
        validate_metadata H.platform.max_metadata_key_size H.platform.max_metadata_value_size given)
    created ← on_world F H (
        new_machine F H.codecs bucket provider (wallet_signer F signer) args.owner given
          (to_tx_params args.tx_args).gas_params)
    print_created F H created

  unfoldable pub run_list :
      NetworkConfig F → AddressArgs F → Provider F H.client.Net → Action (Shell F H) (Unit {0})
  run_list cfg args provider = do
    address ← on_world F H (get_address F args cfg.subnet_id)
    machines ←
        on_node F H
          (list_machines F H.codecs bucket provider.queries (void_signer F address) args.height)
    json ← lift (list_json F H machines)
    print_json F H json

  unfoldable pub run_add :
      NetworkConfig F → BucketAddArgs F → Provider F H.client.Net → Action (Shell F H) (Unit {0})
  run_add cfg args provider = do
    signer ← on_world F H (tx_signer F args.private_key cfg.subnet_id args.tx_args provider)
    tx ← on_world F H (
        Bucket.add_from_path F H.codecs H.platform (record { address = args.address }) provider
          (wallet_signer F signer) signer.addr args.key args.input
          (record {
            ttl = args.ttl;
            metadata = collect args.metadata;
            overwrite = args.overwrite;
            token_amount = args.token_amount;
            broadcast_mode = get_mode args.broadcast_mode;
            gas_params = (to_tx_params args.tx_args).gas_params;
          }))
    print_tx_json F H tx

  unfoldable pub run_delete :
      NetworkConfig F → BucketDeleteArgs F → Provider F H.client.Net → Action (Shell F H) (Unit {0})
  run_delete cfg args provider = do
    signer ← on_world F H (tx_signer F args.private_key cfg.subnet_id args.tx_args provider)
    tx ← on_world F H (
        Bucket.delete F H.codecs H.platform (record { address = args.address }) provider
          (wallet_signer F signer) signer.addr args.key
          (tx_options args.broadcast_mode args.tx_args))
    print_tx_json F H tx

  -- The object is written to standard output, chunk by chunk.
  unfoldable pub write_object :
      BucketGetArgs F → Provider F H.client.Net → Action (Shell F H) (Unit {0})
  write_object args provider = do
    stream ← on_node F H (
        Bucket.open_object F H.codecs H.platform (record { address = args.address }) provider
          args.key (record { range = args.range; height = args.height }))
    Bucket.copy_stream (λ chunk. write F H (raw chunk)) stream

  unfoldable pub run_get : NetworkConfig F → BucketGetArgs F → Action (Shell F H) (Unit {0})
  unfolding write_object
  run_get cfg args = do
    provider ← connect F H cfg (some (unwrap_or args.object_api_url cfg.object_api_url))
    write_object args provider

  unfoldable pub run_query :
      BucketQueryArgs F → Provider F H.client.Net → Action (Shell F H) (Unit {0})
  run_query args provider = do
    found ← on_node F H (
        Bucket.query F H.codecs H.platform (record { address = args.address }) provider.queries
          (record {
            prefix = args.prefix;
            delimiter = args.delimiter;
            start_key = Opt.map as_bytes args.start_key;
            limit = args.limit;
            height = args.height;
          }))
    print_json F H (query_json F H found)

  unfoldable pub run_metadata :
      NetworkConfig F
      → BucketMetadataArgs F
      → Provider F H.client.Net
      → Action (Shell F H) (Unit {0})
  run_metadata cfg args provider = do
    signer ← on_world F H (tx_signer F args.private_key cfg.subnet_id args.tx_args provider)
    tx ← on_world F H (
        Bucket.update_object_metadata F H.codecs H.platform (record { address = args.address })
          provider (wallet_signer F signer) signer.addr args.key (collect args.metadata)
          (tx_options args.broadcast_mode args.tx_args))
    print_tx_json F H tx

  unfoldable pub handle_bucket : NetworkConfig F → BucketCommands F → Action (Shell F H) (Unit {0})
  unfolding run_create run_list run_add run_delete run_get run_query run_metadata
  handle_bucket cfg (create args) = connect F H cfg none >>= run_create cfg args
  handle_bucket cfg (list args) = connect F H cfg none >>= run_list cfg args
  handle_bucket cfg (add args) =
      connect F H cfg (some (unwrap_or args.object_api_url cfg.object_api_url)) >>= run_add cfg args
  handle_bucket cfg (delete args) = connect F H cfg none >>= run_delete cfg args
  handle_bucket cfg (get args) = run_get cfg args
  handle_bucket cfg (query args) = connect F H cfg none >>= run_query args
  handle_bucket cfg (metadata args) = connect F H cfg none >>= run_metadata cfg args
