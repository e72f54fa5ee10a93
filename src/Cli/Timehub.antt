-- ===== src/Cli/Timehub.antt =====
-- cli/src/machine/timehub.rs: the commands of timehubs.
pub mod Text
use rust_recall.Base.{
  ℕ, String, ◌<>◌, List, [], ◌∷◌, Option, none, Result, ok, err, panic, ok_or, context,
  ◌>>=◌ as ◌>>=ʳ◌,
}
use rust_recall.Base.Action.{Action, ◌>>=◌, lift}
use rust_recall.Base.Text.{show}
use rust_recall.Base.Text.Trim.{trim}
use rust_recall.Actors.{timehub}
use rust_recall.Fvm.{Bytes, FvmQueryHeight, Fvm}
use rust_recall.Provider.Traits.{Provider}
use rust_recall.Signer.Wallet.{wallet_signer}
use rust_recall.Signer.Void.{void_signer}
use rust_recall.Sdk.Machine.{list_machines, new_machine}
use rust_recall.Sdk.Timehub as Timehub
use rust_recall.Sdk.Credits.Convert.{collect}
use rust_recall.Sdk.Network.{NetworkConfig}
use rust_recall.Cli.Json.{text, num, cids, leaf as leaf_json, json_object}
use rust_recall.Cli.Shell.{Host, Shell, on_world, on_node, print_json, print_tx_json}
use rust_recall.Cli.Options.{
  BroadcastMode, TxArgs, to_tx_params, tx_options, AddressArgs, get_address,
}
use rust_recall.Cli.Tx.{tx_signer, connect}
use rust_recall.Cli.Machine.{list_json, print_created}

module _ (F : Fvm) where
  pub record TimehubCreateArgs : Type 0 where
    pub private_key : F.SecretKey
    pub owner : Option F.Address
    pub metadata : List (String × String)
    pub tx_args : TxArgs

  pub record TimehubPushArgs : Type 0 where
    pub private_key : F.SecretKey
    pub address : F.Address
    pub input : String
    pub broadcast_mode : BroadcastMode
    pub tx_args : TxArgs

  pub record TimehubQueryArgs : Type 0 where
    pub address : F.Address
    pub height : FvmQueryHeight

  pub record TimehubLeafArgs : Type 0 where
    pub address : F.Address
    pub index : ℕ
    pub height : FvmQueryHeight

  pub data TimehubCommands : Type 0 where
    create : TimehubCreateArgs → TimehubCommands
    list : AddressArgs F → TimehubCommands
    push : TimehubPushArgs → TimehubCommands
    leaf : TimehubLeafArgs → TimehubCommands
    count peaks root : TimehubQueryArgs → TimehubCommands

  module _ (H : Host F) where
    -- The CID of a text, trimmed
    cid_of_text : Bytes → Result F.Cid
    cid_of_text buf =
        context (F.from_utf8 buf) "input should be a multibase encoded utf8 string" >>=ʳ λ str_data.
        context (H.cid_from_str (trim str_data))
          ("'" <> trim str_data <> "' should be a multibase encoded CID")

    -- The input is a CID in binary form, or else as a text.
    unfoldable pub read_cid : Bytes → Result F.Cid
    unfolding cid_of_text
    read_cid buf = elim (H.cid_read_bytes buf) [
      | ok cid ↦ ok cid
      | err e ↦ cid_of_text buf
      | panic e ↦ panic e
    ]

    leaf_missing : TimehubLeafArgs → String
    leaf_missing args =
        "leaf not found for index '"
        <> show args.index
        <> "' at height "
        <> H.debug_height args.height

    unfoldable pub run_timehub :
        NetworkConfig F → Provider F H.client.Net → TimehubCommands → Action (Shell F H) (Unit {0})
    unfolding leaf_missing
    run_timehub cfg provider (create args) = do
      signer ← on_world F H (tx_signer F args.private_key cfg.subnet_id args.tx_args provider)
      created ← on_world F H (
          new_machine F H.codecs timehub provider (wallet_signer F signer) args.owner
            (collect args.metadata) (to_tx_params args.tx_args).gas_params)
      print_created F H created
    run_timehub cfg provider (list args) = do
      address ← on_world F H (get_address F args cfg.subnet_id)
      machines ←
          on_node F H
            (list_machines F H.codecs timehub provider.queries (void_signer F address) args.height)
      json ← lift (list_json F H machines)
      print_json F H json
    run_timehub cfg provider (push args) = do
      signer ← on_world F H (tx_signer F args.private_key cfg.subnet_id args.tx_args provider)
      buf ← lift (H.read_input args.input)
      cid ← lift (read_cid buf)
      tx ← on_world F H (
          Timehub.push F H.codecs (record { address = args.address }) provider
            (wallet_signer F signer) signer.addr (H.cid_to_bytes cid)
            (tx_options args.broadcast_mode args.tx_args))
      print_tx_json F H tx
    run_timehub cfg provider (leaf args) = do
      found ← on_node F H (
          Timehub.leaf F H.codecs (record { address = args.address }) provider.queries args.index
            args.height)
      l ← lift (ok_or found (leaf_missing args))
      print_json F H (leaf_json l)
    run_timehub cfg provider (count args) = do
      n ← on_node F H (
          Timehub.count F H.codecs (record { address = args.address }) provider.queries args.height)
      print_json F H (json_object (("count", num n) ∷ []))
    run_timehub cfg provider (peaks args) = do
      found ← on_node F H (
          Timehub.peaks F H.codecs (record { address = args.address }) provider.queries args.height)
      print_json F H (json_object (("peaks", cids found) ∷ []))
    run_timehub cfg provider (root args) = do
      found ←
          on_node F H (
            Timehub.root F H.codecs (record { address = args.address }) provider.queries
              args.height)
      print_json F H (json_object (("root", text (H.show_cid found)) ∷ []))

    unfoldable pub handle_timehub :
        NetworkConfig F → TimehubCommands → Action (Shell F H) (Unit {0})
    handle_timehub cfg command = do
      provider ← connect F H cfg none
      run_timehub cfg provider command
