-- ===== src/Cli/Options.antt =====
-- cli/src/main.rs: the options that commands share, and what they stand for in the sdk.
pub mod Addresses
use rust_recall.Base.{
  ℕ, String, ◌<>◌, List, [], ◌∷◌, Option, none, some, Result, ok, map_err, map_ok, unwrap_or,
  ◌>>=◌ as ◌>>=ʳ◌,
}
use rust_recall.Base.HashSet.{HashSet, hash_set, insert}
use rust_recall.Base.Int.{ℤ, pos}
use rust_recall.Base.Action.{Action, ◌>>=◌, pure, fail}
use rust_recall.Base.Text.{split}
use rust_recall.Fvm.{FvmQueryHeight, Fvm}
use rust_recall.Provider.Message.{GasParams}
use rust_recall.Provider.Tx as Sdk
use rust_recall.Provider.Util.{parse_address}
use rust_recall.Signer.World.{World}
use rust_recall.Signer.Subnet.{SubnetId}
use rust_recall.Signer.Wallet.{ethereum, new_wallet}
use rust_recall.Sdk.Call.{TxOptions}
use rust_recall.Sdk.Network as SdkNetwork

pub data Network : Type 0 where
  mainnet testnet localnet devnet : Network

-- `Network::get`
unfoldable pub get_network : Network → SdkNetwork.Network
get_network mainnet = SdkNetwork.mainnet
get_network testnet = SdkNetwork.testnet
get_network localnet = SdkNetwork.localnet
get_network devnet = SdkNetwork.devnet

pub data BroadcastMode : Type 0 where
  async sync commit : BroadcastMode

-- `BroadcastMode::get`
unfoldable pub get_mode : BroadcastMode → Sdk.BroadcastMode
get_mode async = Sdk.async
get_mode sync = Sdk.sync
get_mode commit = Sdk.commit

pub record TxArgs : Type 0 where
  pub gas_limit : Option ℕ
  pub gas_fee_cap : Option ℤ
  pub gas_premium : Option ℤ
  pub sequence : Option ℕ

-- `TxParams` of the sdk
pub record TxParams : Type 0 where
  pub sequence : Option ℕ
  pub gas_params : GasParams

unfoldable pub to_tx_params : TxArgs → TxParams
to_tx_params args = record {
  sequence = args.sequence;
  gas_params = record {
    gas_limit = unwrap_or args.gas_limit 0;
    gas_fee_cap = unwrap_or args.gas_fee_cap (pos 0);
    gas_premium = unwrap_or args.gas_premium (pos 0);
  };
}

-- The two options that every transaction of the sdk takes
abbrev pub tx_options : BroadcastMode → TxArgs → TxOptions
tx_options mode args = record {
  broadcast_mode = get_mode mode;
  gas_params = (to_tx_params args).gas_params;
}

module _ (F : Fvm) where
  pub record AddressArgs : Type 0 where
    pub private_key : Option F.SecretKey
    pub address : Option F.Address
    pub height : FvmQueryHeight

  abbrev missing_argument : String
  missing_argument =
      "the following required arguments were not provided: --private-key OR --address"

  -- The address, or else that of the key's wallet; without either the process exits with an error.
  unfoldable pub get_address : {N : Type 0} → AddressArgs → SubnetId F → Action (World N) F.Address
  get_address args subnet_id = elim args.address [
    | some addr ↦ pure addr
    | none ↦ elim args.private_key [
      | some sk ↦ new_wallet F sk ethereum subnet_id >>= (λ signer. pure signer.addr)
      | none ↦ fail missing_argument
    ]
  ]

  -- The set of the addresses of a list; the first failure ends it.
  unfoldable pub collect_addresses : List String → Result (HashSet F.Address)
  collect_addresses [] = ok (hash_set [])
  collect_addresses (s ∷ rest) =
      map_err (parse_address F s) (λ e. "error parsing address: " <> e) >>=ʳ λ a.
      map_ok (insert a) (collect_addresses rest)

  unfoldable pub parse_address_list : String → Result (HashSet F.Address)
  unfolding collect_addresses
  parse_address_list s = collect_addresses (split b',' s)
