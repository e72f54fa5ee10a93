-- ===== src/Cli/Shell.antt =====
-- What a command of cli/src works on: the node, the EVM, the random numbers, and standard output;
-- and the crates that the command line calls, with `print_json` and `print_tx_json` of main.rs.
use rust_recall.Base.{String, List, [], ◌∷◌, ◌++◌, Result, ok}
use rust_recall.Base.Int.{ℤ}
use rust_recall.Base.Action.{Action, ◌>>=◌, lift}
use rust_recall.Fvm.{Bytes, FvmQueryHeight, Fvm}
use rust_recall.Provider.Tx.{TxResult, TxStatus}
use rust_recall.Provider.JsonRpc.Rpc.{Client}
use rust_recall.Provider.JsonRpc.Connect.{Connector}
use rust_recall.Signer.World.{World, on_net}
use rust_recall.Signer.Key.{Keys}
use rust_recall.Sdk.Codecs.{Codecs}
use rust_recall.Sdk.Bucket.{Platform}
use rust_recall.Sdk.Network.{Urls}
use rust_recall.Sdk.Ipc.Evm.{Evm, Send}
use rust_recall.Cli.Json.{Json, transaction, receipt}

pub record Host (F : Fvm) : Type 1 where
  pub codecs : Codecs F
  pub client : Client F
  pub evm : Evm F
  pub evm_send : Send evm
  pub platform : Platform
  pub keys : Keys F
  pub connector : Connector
  pub urls : Urls
  pub to_string_pretty : Json F evm.Receipt → Result String
  pub transaction_to_value : F.Transaction → Result (Json F evm.Receipt)
  pub receipt_to_value : F.Receipt → Result (Json F evm.Receipt)
  -- displays of a credit rate, a CID and a hash, and the debug form of a height
  pub show_rate : ℤ → String
  pub show_cid : F.Cid → String
  pub show_object_hash : Bytes → String
  pub debug_height : FvmQueryHeight → String
  -- `Cid::{read_bytes, from_str, to_bytes}`
  pub cid_read_bytes : Bytes → Result F.Cid
  pub cid_from_str : String → Result F.Cid
  pub cid_to_bytes : F.Cid → Bytes
  -- the content of a `FileOrStdin`
  pub read_input : String → Result Bytes

pub data Output : Type 0 where
  line : String → Output
  raw : Bytes → Output

module _ (F : Fvm) (H : Host F) where
  pub record Shell : Type 0 where
    pub world : World H.client.Net
    pub evm : H.evm.N
    pub rng : H.keys.Rng
    pub printed : List Output

  abbrev pub on_world {ℓ} : {A : Type ℓ} → Action (World H.client.Net) A → Action Shell A
  on_world m s = let (r, w) = m s.world in (r, record s { world = w })

  abbrev pub on_node {ℓ} : {A : Type ℓ} → Action H.client.Net A → Action Shell A
  on_node m = on_world (on_net m)

  abbrev pub on_evm {ℓ} : {A : Type ℓ} → Action H.evm.N A → Action Shell A
  on_evm m s = let (r, n) = m s.evm in (r, record s { evm = n })

  unfoldable pub write : Output → Action Shell (Unit {0})
  write o s = (ok tt, record s { printed = s.printed ++ o ∷ [] })

  -- `print_json`
  unfoldable pub print_json : Json F H.evm.Receipt → Action Shell (Unit {0})
  unfolding write
  print_json value = do json ← lift (H.to_string_pretty value); write (line json)

  abbrev pub json_of_status : TxStatus F → Json F H.evm.Receipt
  json_of_status (TxStatus.pending tx) = transaction tx
  json_of_status (TxStatus.committed r) = receipt r

  -- `print_tx_json`
  unfoldable pub print_tx_json : {T : Type 0} → TxResult F T → Action Shell (Unit {0})
  unfolding write
  print_tx_json tx_res = do
    json ← lift (H.to_string_pretty (json_of_status tx_res.status))
    write (line json)

  -- `serde_json::to_value` of the transaction or the receipt
  unfoldable pub status_to_value : TxStatus F → Result (Json F H.evm.Receipt)
  status_to_value (TxStatus.pending tx) = H.transaction_to_value tx
  status_to_value (TxStatus.committed r) = H.receipt_to_value r
