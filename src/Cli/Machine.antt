-- ===== src/Cli/Machine.antt =====
-- cli/src/machine.rs: what the chain knows of a machine. With the lists of machines and the creation
-- of a machine, which the commands of buckets and timehubs share (cli/src/machine/bucket.rs,
-- timehub.rs).
use rust_recall.Base.{[], ◌∷◌, List, Result, ok, none, expect_ok, map_ok, ◌>>=◌ as ◌>>=ʳ◌}
use rust_recall.Base.Action.{Action, ◌>>=◌, lift}
use rust_recall.Fvm.{FvmQueryHeight, Fvm}
use rust_recall.Provider.Tx.{TxResult}
use rust_recall.Provider.Util.{get_eth_address}
use rust_recall.Sdk.Codecs.{CreateReturn, ListedMachine}
use rust_recall.Sdk.Machine as Sdk
use rust_recall.Sdk.Network.{NetworkConfig}
use rust_recall.Cli.Json.{Json, text, kind, metadata, json_object, json_array}
use rust_recall.Cli.Shell.{Host, Shell, on_node, print_json, status_to_value}
use rust_recall.Cli.Tx.{connect}

module _ (F : Fvm) where
  -- `MachineCommands::Info`
  pub record InfoArgs : Type 0 where
    pub address : F.Address
    pub height : FvmQueryHeight

  module _ (H : Host F) where
    unfoldable pub handle_machine : NetworkConfig F → InfoArgs → Action (Shell F H) (Unit {0})
    handle_machine cfg args = do
      provider ← connect F H cfg none
      info ← on_node F H (Sdk.info F H.codecs provider.queries args.address args.height)
      owner ← lift (get_eth_address F info.owner)
      print_json F H (
          json_object (
            ("kind", kind info.kind)
            ∷ ("owner", text (H.codecs.show_eth_address owner))
            ∷ ("metadata", metadata info.metadata)
            ∷ []))

    -- One machine of a list; its address is expected to have an Ethereum form.
    listed_json : ListedMachine F.Address → Result (Json F H.evm.Receipt)
    listed_json m =
        map_ok
          (λ a. json_object (
            ("address", text (H.codecs.show_eth_address a))
            ∷ ("kind", kind m.kind)
            ∷ ("metadata", metadata m.metadata)
            ∷ []))
          (expect_ok (get_eth_address F m.address) "invalid address")

    list_items : List (ListedMachine F.Address) → Result (List (Json F H.evm.Receipt))
    unfolding listed_json
    list_items [] = ok []
    list_items (m ∷ rest) = listed_json m >>=ʳ λ j. map_ok (◌∷◌ j) (list_items rest)

    unfoldable pub list_json : List (ListedMachine F.Address) → Result (Json F H.evm.Receipt)
    unfolding list_items
    list_json machines = map_ok json_array (list_items machines)

    -- The end of a creation: the new machine's address, and the transaction
    unfoldable pub print_created :
        Sdk.Machine F × TxResult F CreateReturn → Action (Shell F H) (Unit {0})
    print_created (store, tx) = do
      address ← lift (Sdk.machine_eth_address F store)
      tx_json ← lift (status_to_value F H tx.status)
      print_json F H (
          json_object
            (("address", text (H.codecs.show_eth_address address)) ∷ ("tx", tx_json) ∷ []))
