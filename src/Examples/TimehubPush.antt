-- ===== src/Examples/TimehubPush.antt =====
-- sdk/examples/timehub_push.rs
use rust_recall.Base.{ℕ, String, ◌<>◌, List, [], Option, none, some, Result, expect, map_ok}
use rust_recall.Base.Action.{Action, ◌>>=◌, lift}
use rust_recall.Base.Text.{show}
use rust_recall.Actors.{timehub}
use rust_recall.Fvm.{committed, Fvm}
use rust_recall.Provider.Message.{default_gas_params}
use rust_recall.Provider.Tx.{TxResult, commit, hash}
use rust_recall.Provider.Traits.{Provider}
use rust_recall.Signer.Wallet.{Wallet, ethereum, new_wallet, init_sequence, wallet_signer}
use rust_recall.Sdk.Call.{TxOptions}
use rust_recall.Sdk.Codecs.{PushReturn, Leaf}
use rust_recall.Sdk.Machine.{Machine, new_machine}
use rust_recall.Sdk.Timehub as Timehub
use rust_recall.Sdk.Network.{NetworkConfig}
use rust_recall.Cli.Shell.{Host, Shell, on_world, on_node}
use rust_recall.Cli.Tx.{connect}
use rust_recall.Examples.Account.{key_argument}
use rust_recall.Examples.Process.{Crates, Process, println, on_shell, testnet_config}

-- `PushOptions::default()`, and the other options' default
abbrev pub default_options : TxOptions
default_options = record { broadcast_mode = commit; gas_params = default_gas_params }

-- `tx.data.clone().unwrap().index`
unfoldable pub pushed_index : (F : Fvm) → TxResult F (PushReturn F.Cid) → Result ℕ
pushed_index F tx =
    map_ok (λ returned. returned.index)
      (expect tx.returned "called `Option::unwrap()` on a `None` value")

module _ (F : Fvm) (H : Host F) (X : Crates F H) where
  unfoldable pub leaf_text : Option (Leaf F.Cid) → String
  leaf_text none = "No value at the given index!"
  leaf_text (some found) =
      "index 0 timestamp: "
      <> show found.timestamp
      <> ", value: '"
      <> H.show_cid found.witnessed
      <> "'"

  -- What is read at the end: the leaf, the count and the root
  unfoldable pub read_back : Machine F → Provider F H.client.Net → Action (Shell F H) (Unit {0})
  unfolding leaf_text
  read_back machine provider = do
    found ← on_node F H (Timehub.leaf F H.codecs machine provider.queries 0 committed)
    _ ← println F H (leaf_text found)
    count ← on_node F H (Timehub.count F H.codecs machine provider.queries committed)
    _ ← println F H ("Count: " <> show count)
    root ← on_node F H (Timehub.root F H.codecs machine provider.queries committed)
    println F H ("State root: " <> H.show_cid root)

  -- A timehub is made, and a CID is pushed to it.
  unfoldable pub create_and_push :
      Provider F H.client.Net → Wallet F → Action (Shell F H) (Unit {0})
  unfolding read_back
  create_and_push provider wallet = do
    (machine, created) ← on_world F H (
        new_machine F H.codecs timehub provider (wallet_signer F wallet) none [] default_gas_params)
    _ ← println F H ("Created new timehub " <> F.show_address machine.address)
    _ ← println F H ("Transaction hash: 0x" <> X.show_hash (hash F created))
    value ← lift (H.cid_from_str "baeabeif2afeua6dg23holphe2ecingsqr7sjo5gdbmtvekjybzspxpmaf4")
    tx ← on_world F H (
        Timehub.push F H.codecs machine provider (wallet_signer F wallet) wallet.addr
          (H.cid_to_bytes value) default_options)
    index ← lift (pushed_index F tx)
    _ ←
        println F H
          ("Pushed to timehub " <> F.show_address machine.address <> " with index " <> show index)
    _ ← println F H ("Transaction hash: 0x" <> X.show_hash (hash F tx))
    read_back machine provider

  unfoldable pub push_example : F.SecretKey → NetworkConfig F → Action (Shell F H) (Unit {0})
  push_example pk cfg = do
    provider ← connect F H cfg none
    wallet ← on_world F H (new_wallet F pk ethereum cfg.subnet_id)
    _ ← on_world F H (init_sequence F wallet provider.queries)
    create_and_push provider wallet

  unfoldable pub main : List String → Action (Process F H) (Unit {0})
  main args = do
    pk ← lift (key_argument F H X args)
    cfg ← testnet_config F H
    on_shell F H (push_example pk cfg)
