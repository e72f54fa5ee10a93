-- ===== src/Cli/Bucket.antt =====
-- cli/src/machine/bucket.rs: the commands of buckets. `--quiet` only hides the progress bars.
pub mod Run
pub mod Metadata
pub mod Get
use rust_recall.Base.{
  ℕ, String, Bool, List, [], ◌∷◌, Option, none, some, Result, ok, unwrap_or, map_ok,
}
use mathlib.Core.Option as Opt
use rust_recall.Base.Int.{ℤ}
use rust_recall.Base.Action.{Action, ◌>>=◌, lift}
use rust_recall.Base.Text.{as_bytes}
use rust_recall.Actors as Actors
use rust_recall.Actors.{bucket}
use rust_recall.Fvm.{Bytes, FvmQueryHeight, Fvm}
use rust_recall.Provider.Traits.{Provider}
use rust_recall.Signer.Wallet.{wallet_signer}
use rust_recall.Signer.Void.{void_signer}
use rust_recall.Sdk.Codecs.{ObjectState, ListObjectsReturn}
use rust_recall.Sdk.Credits.Convert.{insert, collect}
use rust_recall.Sdk.Machine.{list_machines, new_machine}
use rust_recall.Sdk.Bucket as Bucket
use rust_recall.Sdk.Network.{NetworkConfig}
use rust_recall.Cli.Json.{Json, null, text, num, metadata as metadata_json, json_object, json_array}
use rust_recall.Cli.Shell.{
  Host, Shell, Output, raw, write, on_world, on_node, print_json, print_tx_json,
}
use rust_recall.Cli.Options.{
  BroadcastMode, get_mode, TxArgs, to_tx_params, tx_options, AddressArgs, get_address,
}
use rust_recall.Cli.Tx.{tx_signer, connect}
use rust_recall.Cli.Machine.{list_json, print_created}

module _ (F : Fvm) where
  pub record BucketCreateArgs : Type 0 where
    pub private_key : F.SecretKey
    pub owner : Option F.Address
    pub alias : Option String
    pub metadata : List (String × String)
    pub tx_args : TxArgs

  pub record BucketAddArgs : Type 0 where
    pub private_key : F.SecretKey
    pub object_api_url : Option String
    pub address : F.Address
    pub key : String
    pub ttl : Option ℤ
    pub overwrite : Bool
    pub metadata : List (String × String)
    pub input : String
    pub token_amount : Option ℤ
    pub broadcast_mode : BroadcastMode
    pub tx_args : TxArgs

  pub record BucketDeleteArgs : Type 0 where
    pub private_key : F.SecretKey
    pub address : F.Address
    pub key : String
    pub broadcast_mode : BroadcastMode
    pub tx_args : TxArgs

  pub record BucketGetArgs : Type 0 where
    pub object_api_url : Option String
    pub address : F.Address
    pub key : String
    pub range : Option String
    pub height : FvmQueryHeight

  pub record BucketQueryArgs : Type 0 where
    pub address : F.Address
    pub prefix : String
    pub delimiter : String
    pub start_key : Option String
    pub limit : ℕ
    pub height : FvmQueryHeight

  pub record BucketMetadataArgs : Type 0 where
    pub private_key : F.SecretKey
    pub address : F.Address
    pub key : String
    pub metadata : List (String × Option String)
    pub broadcast_mode : BroadcastMode
    pub tx_args : TxArgs

  pub data BucketCommands : Type 0 where
    create : BucketCreateArgs → BucketCommands
    list : AddressArgs F → BucketCommands
    add : BucketAddArgs → BucketCommands
    delete : BucketDeleteArgs → BucketCommands
    get : BucketGetArgs → BucketCommands
    query : BucketQueryArgs → BucketCommands
    metadata : BucketMetadataArgs → BucketCommands

  -- The metadata of a new bucket: the pairs of `--metadata`, and then the alias
  unfoldable pub create_metadata : BucketCreateArgs → Actors.Metadata
  create_metadata args = elim args.alias [
    | none ↦ collect args.metadata
    | some alias ↦ insert "alias" alias (collect args.metadata)
  ]

  module _ (H : Host F) where
    -- The field of the metadata, unless there is none
    metadata_fields : Actors.Metadata → List (String × Json F H.evm.Receipt)
    metadata_fields [] = []
    metadata_fields (entry ∷ rest) = ("metadata", metadata_json (entry ∷ rest)) ∷ []

    unfoldable pub object_state_to_json : ObjectState → Json F H.evm.Receipt
    unfolding metadata_fields
    object_state_to_json o = json_object (
        ("hash", text (H.show_object_hash o.hash))
        ∷ ("size", num o.size)
        ∷ metadata_fields o.metadata)

    -- `core::str::from_utf8(..).unwrap_or_default()`
    pub utf8_or_empty : Bytes → String
    utf8_or_empty b = elim (F.from_utf8 b) [ ok s ↦ s | _ ↦ "" ]

    objects_json : List (Bytes × ObjectState) → List (Json F H.evm.Receipt)
    objects_json [] = []
    objects_json ((key, o) ∷ rest) =
        json_object (("key", text (utf8_or_empty key)) ∷ ("value", object_state_to_json o) ∷ [])
        ∷ objects_json rest

    prefixes_json : List Bytes → List (Json F H.evm.Receipt)
    prefixes_json [] = []
    prefixes_json (v ∷ rest) = text (utf8_or_empty v) ∷ prefixes_json rest

    next_key_json : Option Bytes → Json F H.evm.Receipt
    next_key_json none = null
    next_key_json (some key) = text (utf8_or_empty key)

    unfoldable pub query_json : ListObjectsReturn → Json F H.evm.Receipt
    unfolding objects_json prefixes_json next_key_json utf8_or_empty
    query_json l = json_object (
        ("objects", json_array (objects_json l.objects))
        ∷ ("common_prefixes", json_array (prefixes_json l.common_prefixes))
        ∷ ("next_key", next_key_json l.next_key)
        ∷ [])
