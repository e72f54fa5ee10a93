-- ===== src/Fvm.antt =====
-- The crates that the client is built on and does not implement: FVM addresses, CBOR and base64
-- codecs, secp256k1 signatures, Ethereum views of transactions. Their types and functions are the
-- fields of a record, a parameter of every definition that uses them. Foreign structs whose fields
-- the source reads are records of those fields.
use rust_recall.Base.{ℕ, String, Bool, Option, List, Result, ok, ◌>>=◌, ◌≡◌}
use rust_recall.Base.Int.{ℤ}
use rust_recall.Actors.{Method, Params}

abbrev pub Bytes : Type 0
Bytes = List ℕ

-- `address::Payload`, as far as the source tells its cases apart.
pub data Payload : Type 0 where
  id : ℕ → Payload
  -- the subaddress
  delegated : Bytes → Payload
  other : Payload

-- `address::Network`, and how `Network::parse_address` fails
pub data FvmNetwork : Type 0 where
  mainnet testnet : FvmNetwork

pub data AddressError : Type 0 where
  unknown_network : AddressError
  invalid : String → AddressError

pub data ParsedAddress (A : Type 0) : Type 0 where
  parsed : A → ParsedAddress A
  failed : AddressError → ParsedAddress A

-- `fvm_shared::message::Message`
pub record Message (A : Type 0) : Type 0 where
  pub version : ℕ
  pub from : A
  pub to : A
  pub sequence : ℕ
  pub value : ℤ
  pub method_num : ℕ
  pub params : Bytes
  pub gas_limit : ℕ
  pub gas_fee_cap : ℤ
  pub gas_premium : ℤ

-- `query::{FvmQuery, FvmQueryHeight, GasEstimate, ActorState, StateParams}`
pub data FvmQuery (A : Type 0) (C : Type 0) : Type 0 where
  call : Message A → FvmQuery A C
  estimate_gas : Message A → FvmQuery A C
  actor_state : A → FvmQuery A C
  ipld : C → FvmQuery A C
  state_params builtin_actors : FvmQuery A C

pub data FvmQueryHeight : Type 0 where
  committed pending : FvmQueryHeight
  height : ℕ → FvmQueryHeight

pub record GasEstimate : Type 0 where
  pub exit_code : ℕ
  pub info : String
  pub gas_limit : ℕ

pub record ActorState : Type 0 where
  pub sequence : ℕ
  pub balance : ℤ

pub record StateParams : Type 0 where
  pub base_fee : ℤ

-- `abci_query::AbciQuery` and `abci::response::DeliverTx`; a code of 0 is `Code::Ok`.
pub record AbciQuery : Type 0 where
  pub code : ℕ
  pub info : String
  pub key : Bytes
  pub value : Bytes
  pub height : ℕ

pub record DeliverTx : Type 0 where
  pub code : ℕ
  pub data_bytes : Bytes
  pub log : String
  pub info : String

-- `chain::ChainMessage`
pub data ChainMessage (M : Type 0) : Type 0 where
  signed : M → ChainMessage M
  ipc : ChainMessage M

pub record Fvm : Type 1 where
  -- addresses
  pub Address : Type 0
  pub payload : Address → Payload
  pub new_id : ℕ → Address
  pub parse_address : FvmNetwork → String → ParsedAddress Address
  pub show_address : Address → String
  -- `ethers::types::Address` is 20 bytes.
  pub parse_eth_address : String → Result Bytes
  pub ethers_address_to_fil_address : Bytes → Result Address
  pub eth_address_from_id : ℕ → Bytes
  pub system_actor : Address
  pub adm_actor : Address
  pub blobs_actor : Address
  pub config_actor : Address
  -- constants
  pub method_number : Method → ℕ
  pub block_gas_limit : ℕ
  pub usr_not_found : ℕ
  pub height_number : FvmQueryHeight → ℕ
  pub max_chain_id : ℕ
  pub fnv_hash : Bytes → ℕ
  -- `ipc_api::subnet_id::SubnetID`, and how `Error::InvalidID` is displayed
  pub SubnetPath : Type 0
  pub new_subnet : ℕ → List Address → SubnetPath
  pub default_subnet : SubnetPath
  pub root_id : SubnetPath → ℕ
  pub children : SubnetPath → List Address
  pub is_root : SubnetPath → Bool
  pub parent_subnet : SubnetPath → Option SubnetPath
  pub subnet_chain_id : SubnetPath → ℕ
  pub invalid_id : String → String → String
  -- CIDs and the codecs
  pub Cid : Type 0
  pub serialize : Params Address → Result Bytes
  pub encode_query : FvmQuery Address Cid → Result Bytes
  pub decode_bytes : Bytes → Result Bytes
  pub ProtoDeliverTx : Type 0
  pub decode_proto : Bytes → Result ProtoDeliverTx
  pub deliver_tx_of : ProtoDeliverTx → Result DeliverTx
  pub decode_gas_estimate : Bytes → Result GasEstimate
  pub decode_actor_state : Bytes → Result ActorState
  pub decode_actor_id : Bytes → Result ℕ
  pub decode_state_params : Bytes → Result StateParams
  pub decode_registry : Bytes → Result (List (String × Cid))
  pub base64_encode : Bytes → Bytes
  pub from_utf8 : Bytes → Result String
  pub base64_decode : String → Result Bytes
  -- keys and signatures
  pub SecretKey : Type 0
  pub public_key : SecretKey → Bytes
  pub secp256k1_address : Bytes → Result Address
  pub eth_address_of_key : Bytes → Result Address
  pub Signature : Type 0
  pub SignedMessage : Type 0
  pub new_secp256k1 : Message Address → SecretKey → ℕ → Result SignedMessage
  pub verify_signature : Message Address → Signature → ℕ → Result (Unit {0})
  pub encode_chain_message : ChainMessage SignedMessage → Result Bytes
  -- Ethereum views of a transaction
  pub Transaction : Type 0
  pub Receipt : Type 0
  pub transaction_hash : Transaction → Bytes
  pub receipt_hash : Receipt → Bytes
  pub to_eth_transaction : SignedMessage → ℕ → Result Transaction

-- What the client relies on of the base64 crate: decoding undoes encoding, through the ASCII text.
pub record IsBase64 (F : Fvm) : Type 0 where
  pub decode-encode : (b : Bytes) → (F.from_utf8 (F.base64_encode b) >>= F.base64_decode) ≡ ok b

-- What the client relies on of `ipc_api`: a subnet ID holds the root and the children that it was
-- made of.
pub record IsSubnetPath (F : Fvm) : Type 0 where
  pub root_id-new : (r : ℕ) (c : List F.Address) → F.root_id (F.new_subnet r c) ≡ r
  pub children-new : (r : ℕ) (c : List F.Address) → F.children (F.new_subnet r c) ≡ c
