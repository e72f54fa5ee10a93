-- ===== src/Actors.antt =====
-- What the client sends to the chain's actors: the methods it calls by number, and the parameter
-- structs that it builds, with the fields that the source gives them. The structs and the numbers
-- are those of the `fendermint` crates; their CBOR encoding is a parameter (Fvm.antt).
use rust_recall.Base.{ℕ, String, Bool, Option, List}
use rust_recall.Base.Int.{ℤ}

pub data Method : Type 0 where
  add_object delete_object get_object list_objects update_object_metadata : Method
  push get count peaks root : Method
  create_external list_metadata get_metadata : Method
  buy_credit approve_credit revoke_credit get_account get_stats : Method
  set_account_sponsor set_account_status : Method
  set_admin get_admin set_config get_config : Method

-- `adm::Kind`
pub data Kind : Type 0 where
  bucket timehub : Kind

-- `state::TtlStatus`
pub data TtlStatus : Type 0 where
  default reduced extended : TtlStatus

abbrev pub Metadata : Type 0
Metadata = List (String × String)

pub data Params (A : Type 0) : Type 0 where
  -- source, key, hash, recovery hash, size, ttl, metadata, overwrite, from
  add_params : List ℕ → String → List ℕ → List ℕ → ℕ → Option ℤ → Metadata → Bool → A → Params A
  -- key, from
  delete_params : String → A → Params A
  get_params : String → Params A
  -- prefix, delimiter, start key, limit
  list_params : String → String → Option (List ℕ) → ℕ → Params A
  -- key, metadata, from
  update_metadata_params : String → List (String × Option String) → A → Params A
  -- cid bytes, from
  push_params : List ℕ → A → Params A
  leaf_index : ℕ → Params A
  -- owner, kind, metadata
  create_external_params : A → Kind → Metadata → Params A
  list_metadata_params : A → Params A
  buy_credit_params : A → Params A
  -- from, to, caller allowlist, credit limit, gas fee limit, ttl
  approve_credit_params : A → A → Option (List A) → Option ℤ → Option ℤ → Option ℤ → Params A
  -- from, to, for caller
  revoke_credit_params : A → A → Option A → Params A
  get_account_params : A → Params A
  -- from, sponsor
  set_sponsor_params : A → Option A → Params A
  -- subscriber, status
  set_account_status_params : A → TtlStatus → Params A
  set_admin_params : A → Params A
  -- blob capacity, token credit rate, debit interval, minimal ttl, default ttl
  set_config_params : ℕ → ℤ → ℤ → ℤ → ℤ → Params A
