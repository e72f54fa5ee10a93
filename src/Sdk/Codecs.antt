-- ===== src/Sdk/Codecs.antt =====
-- How the returned bytes of the chain's actors are decoded: the CBOR codecs (`from_slice`) of the
-- types of the `fendermint` crates, as records of the fields that the source reads.
use rust_recall.Base.{ℕ, String, Option, List, Result}
use rust_recall.Base.Int.{ℤ}
use rust_recall.Fvm.{Bytes, Fvm}
use rust_recall.Actors.{Kind, Metadata}

pub record CreateReturn : Type 0 where
  pub actor_id : ℕ

-- `adm::Metadata`, and the metadata of one machine
pub record ListedMachine (A : Type 0) : Type 0 where
  pub kind : Kind
  pub address : A
  pub metadata : Metadata

pub record MachineInfo (A : Type 0) : Type 0 where
  pub kind : Kind
  pub owner : A
  pub metadata : Metadata

pub record Object : Type 0 where
  pub hash : Bytes
  pub size : ℕ

pub record ObjectState : Type 0 where
  pub hash : Bytes
  pub size : ℕ
  pub metadata : Metadata

pub record ListObjectsReturn : Type 0 where
  pub objects : List (Bytes × ObjectState)
  pub next_key : Option Bytes
  pub common_prefixes : List Bytes

pub record PushReturn (C : Type 0) : Type 0 where
  pub root : C
  pub index : ℕ

pub record Leaf (C : Type 0) : Type 0 where
  pub timestamp : ℕ
  pub witnessed : C

pub record CreditApproval : Type 0 where
  pub credit_limit : Option ℤ
  pub gas_fee_limit : Option ℤ
  pub expiry : Option ℤ
  pub credit_used : ℤ
  pub gas_fee_used : ℤ

-- The approvals are keyed by addresses in text form.
pub record ActorAccount (A : Type 0) : Type 0 where
  pub capacity_used : ℕ
  pub credit_free : ℤ
  pub credit_committed : ℤ
  pub credit_sponsor : Option A
  pub last_debit_epoch : ℤ
  pub approvals_to : List (String × CreditApproval)
  pub approvals_from : List (String × CreditApproval)
  pub max_ttl : ℤ
  pub gas_allowance : ℤ

pub record GetStatsReturn : Type 0 where
  pub balance : ℤ
  pub capacity_free : ℕ
  pub capacity_used : ℕ
  pub credit_sold : ℤ
  pub credit_committed : ℤ
  pub credit_debited : ℤ
  pub token_credit_rate : ℤ
  pub num_accounts : ℕ
  pub num_blobs : ℕ
  pub num_resolving : ℕ
  pub bytes_resolving : ℕ
  pub num_added : ℕ
  pub bytes_added : ℕ

pub record RecallConfig : Type 0 where
  pub blob_capacity : ℕ
  pub token_credit_rate : ℤ
  pub blob_credit_debit_interval : ℤ
  pub blob_min_ttl : ℤ
  pub blob_default_ttl : ℤ

pub record Codecs (F : Fvm) : Type 0 where
  pub create_return : Bytes → Result CreateReturn
  pub machine_list : Bytes → Result (List (ListedMachine F.Address))
  pub machine_info : Bytes → Result (MachineInfo F.Address)
  pub object : Bytes → Result (Option Object)
  pub added_object : Bytes → Result Object
  pub object_list : Bytes → Result ListObjectsReturn
  pub push_return : Bytes → Result (PushReturn F.Cid)
  pub leaf : Bytes → Result (Option (Leaf F.Cid))
  pub leaf_count : Bytes → Result ℕ
  pub cid_list : Bytes → Result (List F.Cid)
  pub cid : Bytes → Result F.Cid
  pub stats : Bytes → Result GetStatsReturn
  pub account : Bytes → Result (ActorAccount F.Address)
  pub account_option : Bytes → Result (Option (ActorAccount F.Address))
  pub credit_approval : Bytes → Result CreditApproval
  pub address_option : Bytes → Result (Option F.Address)
  pub config : Bytes → Result RecallConfig
  -- `Kind`'s display, and that of an amount and of a hash
  pub show_kind : Kind → String
  pub show_credit : ℤ → String
  pub show_token : ℤ → String
  pub show_ttl : ℤ → String
  -- `encode_hex_with_prefix`
  pub show_eth_address : Bytes → String
  -- `type_name` of the types that `decode_as` names in its error
  pub address_option_name : String
  pub config_name : String
  pub object_name : String
