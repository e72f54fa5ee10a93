-- ===== src/Examples/Process.antt =====
-- What the programs of sdk/examples run on: their arguments, and the displays and files of the crates
-- that they call besides those of the command line. `println!` writes a line to standard output.
use rust_recall.Base.{ℕ, String, List, Option, none, some, Result, ok, panic, get_elem?}
use rust_recall.Base.Int.{ℤ}
use rust_recall.Base.Action.{Action}
use rust_recall.Fvm.{Bytes, FvmNetwork, Fvm}
use rust_recall.Sdk.Credits.Convert.{Approval, Approvals, Balance}
use rust_recall.Sdk.Network.{NetworkConfig, testnet, get_config}
use rust_recall.Cli.Shell.{Host, Shell, line, write}

pub record Crates (F : Fvm) (H : Host F) : Type 0 where
  -- `EthAddress::new_secp256k1`, and `Address::from`
  pub eth_address_of_key : Bytes → Result Bytes
  pub address_of_eth : Bytes → F.Address
  -- `TokenAmount::from_whole`
  pub from_whole : ℕ → ℤ
  -- displays: a transaction's hash, the hash of a receipt of the EVM, in full in hexadecimal too
  pub show_hash : Bytes → String
  pub show_receipt_hash : H.evm.Receipt → String
  pub hex_receipt_hash : H.evm.Receipt → String
  -- `receipt.gas_used.unwrap_or_default()`
  pub gas_used : F.Receipt → ℕ
  pub debug_balance : Balance → String
  pub debug_bought : Option Balance → String
  pub debug_approval : Option Approval → String
  pub debug_approvals : Approvals → String
  -- `rng.fill` of so many bytes
  pub fill : ℕ → H.keys.Rng → Bytes × H.keys.Rng
  -- a new temporary file: with this content, by its path, or empty, with the path that is shown
  pub temp_file : Bytes → Result String
  pub new_file : Result String
  -- `open_rw` of the temporary file
  pub open_rw : String → Result (Unit {0})
  -- `write_all` on a file's content, and `read_exact` from its start
  pub write_all : Bytes → Action Bytes (Unit {0})
  pub read_exact : ℕ → Bytes → Result Bytes

-- `&args[i]`
abbrev pub argument : List String → ℕ → Result String
argument args i = elim (get_elem? args i) [ some a ↦ ok a | none ↦ panic "index out of bounds" ]

module _ (F : Fvm) (H : Host F) where
  abbrev pub println : String → Action (Shell F H) (Unit {0})
  println text = write F H (line text)

  -- The current network of the process stands beside the shell.
  abbrev pub Process : Type 0
  Process = FvmNetwork × Shell F H

  abbrev pub on_network {ℓ} : {A : Type ℓ} → Action FvmNetwork A → Action Process A
  on_network m (network, s) = let (r, n) = m network in (r, (n, s))

  abbrev pub on_shell {ℓ} : {A : Type ℓ} → Action (Shell F H) A → Action Process A
  on_shell m (network, s) = let (r, t) = m s in (r, (network, t))

  -- `Network::Testnet.get_config()`
  abbrev pub testnet_config : Action Process (NetworkConfig F)
  testnet_config = on_network (get_config F H.urls testnet)
