-- ===== src/Sdk/Machine.antt =====
-- sdk/src/machine.rs: what buckets and timehubs share.
pub mod Deploy
use rust_recall.Base.{
  ℕ, String, List, [], ◌∷◌, Option, Result, expect, unwrap_or, Bool, if◌then◌else◌,
}
use rust_recall.Base.Int.{pos}
use rust_recall.Base.Action.{Action, ◌>>=◌, lift, pure}
use rust_recall.Base.Text.{str_eq}
use rust_recall.Actors.{
  Kind, Metadata, create_external, list_metadata, get_metadata, create_external_params,
  list_metadata_params,
}
use rust_recall.Fvm.{Bytes, DeliverTx, FvmQueryHeight, Fvm}
use rust_recall.Provider.Message.{GasParams}
use rust_recall.Provider.Tx.{commit, TxResult}
use rust_recall.Provider.Traits.{QueryProvider, Provider}
use rust_recall.Provider.Util.{get_eth_address}
use rust_recall.Signer.World.{World}
use rust_recall.Signer.Traits.{Signer}
use rust_recall.Sdk.Codecs.{CreateReturn, ListedMachine, MachineInfo, Codecs}
use rust_recall.Sdk.Call.{decode_with, read_actor, transact}

module _ (F : Fvm) (K : Codecs F) where
  unfoldable pub decode_create : DeliverTx → Result CreateReturn
  decode_create = decode_with F K.create_return "error parsing as CreateExternalReturn"

  decode_list : DeliverTx → Result (List (ListedMachine F.Address))
  decode_list = decode_with F K.machine_list "error parsing as Vec<adm::Metadata>"

  decode_info : DeliverTx → Result (MachineInfo F.Address)
  decode_info = decode_with F K.machine_info "error parsing as Metadata"

  -- The machines of one kind, told by the kind's display.
  unfoldable pub of_kind : Kind → List (ListedMachine F.Address) → List (ListedMachine F.Address)
  of_kind kind [] = []
  of_kind kind (m ∷ rest) =
      if str_eq (K.show_kind m.kind) (K.show_kind kind)
      then m ∷ of_kind kind rest
      else of_kind kind rest

  -- The end of `deploy_machine`: the address of the new actor.
  unfoldable pub deployed : TxResult F CreateReturn → Result (F.Address × TxResult F CreateReturn)
  deployed tx = elim (expect tx.returned "data exists") [
    | Result.ok created ↦ Result.ok (F.new_id created.actor_id, tx)
    | Result.err e ↦ Result.err e
    | Result.panic e ↦ Result.panic e
  ]

  module _ {N : Type 0} where
    -- `Machine::list`, for the kind of the machine type
    unfoldable pub list_machines :
        Kind
        → QueryProvider F N
        → Signer F N
        → FvmQueryHeight
        → Action N (List (ListedMachine F.Address))
    unfolding decode_list
    list_machines kind provider signer at = do
      params ← lift (F.serialize (list_metadata_params signer.address))
      machines ← read_actor F provider F.adm_actor list_metadata params at decode_list
      pure (of_kind kind machines)

    -- `info`
    unfoldable pub info :
        QueryProvider F N → F.Address → FvmQueryHeight → Action N (MachineInfo F.Address)
    unfolding decode_info
    info provider address at = read_actor F provider address get_metadata [] at decode_info

    unfoldable pub deploy_machine :
        Provider F N
        → Signer F N
        → Option F.Address
        → Kind
        → Metadata
        → GasParams
        → Action (World N) (F.Address × TxResult F CreateReturn)
    deploy_machine provider signer owner kind metadata gas_params = do
      tx ←
          transact F provider signer F.adm_actor (pos 0) create_external
            (create_external_params (unwrap_or owner signer.address) kind metadata)
            (record { broadcast_mode = commit; gas_params = gas_params }) decode_create
      lift (deployed tx)

-- A machine is known by its address (`Bucket`, `Timehub`); `Machine::eth_address`
pub record Machine (F : Fvm) : Type 0 where
  pub address : F.Address

unfoldable pub machine_eth_address : (F : Fvm) → Machine F → Result Bytes
machine_eth_address F machine = get_eth_address F machine.address

-- `Machine::new` of a machine type of the given kind
unfoldable pub new_machine :
    (F : Fvm) (K : Codecs F) {N : Type 0}
    → Kind
    → Provider F N
    → Signer F N
    → Option F.Address
    → Metadata
    → GasParams
    → Action (World N) (Machine F × TxResult F CreateReturn)
new_machine F K kind provider signer owner metadata gas_params = do
  (address, tx) ← deploy_machine F K provider signer owner kind metadata gas_params
  pure (record { address = address }, tx)
