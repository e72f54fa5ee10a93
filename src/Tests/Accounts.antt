-- ===== src/Tests/Accounts.antt =====
-- The codecs of the small chain for what the chain's actors return, with fixed answers.
use rust_recall.Base.{ℕ, String, [], none, some, ok, length}
use rust_recall.Base.Int.{pos}
use rust_recall.Actors.{Kind, bucket, timehub}
use rust_recall.Sdk.Codecs.{Codecs, ActorAccount, RecallConfig, GetStatsReturn}
use rust_recall.Tests.Samples.{chain, text_of}

abbrev pub account : ActorAccount ℕ
account = record {
  capacity_used = 0;
  credit_free = pos 10;
  credit_committed = pos 0;
  credit_sponsor = none;
  last_debit_epoch = pos 0;
  approvals_to = [];
  approvals_from = [];
  max_ttl = pos 0;
  gas_allowance = pos 0;
}

abbrev pub config : RecallConfig
config = record {
  blob_capacity = 1;
  token_credit_rate = pos 1;
  blob_credit_debit_interval = pos 1;
  blob_min_ttl = pos 1;
  blob_default_ttl = pos 1;
}

abbrev pub stats : GetStatsReturn
stats = record {
  balance = pos 0;
  capacity_free = 0;
  capacity_used = 0;
  credit_sold = pos 0;
  credit_committed = pos 0;
  credit_debited = pos 0;
  token_credit_rate = pos 1;
  num_accounts = 0;
  num_blobs = 0;
  num_resolving = 0;
  bytes_resolving = 0;
  num_added = 0;
  bytes_added = 0;
}

abbrev show_kind : Kind → String
show_kind bucket = "bucket"
show_kind timehub = "timehub"

abbrev pub codecs : Codecs chain
codecs = record {
  create_return = λ b. ok (record { actor_id = length b });
  machine_list = λ b. ok [];
  machine_info = λ b. ok (record { kind = bucket; owner = 1; metadata = [] });
  object = λ b. ok none;
  added_object = λ b. ok (record { hash = b; size = 0 });
  object_list = λ b. ok (record { objects = []; next_key = none; common_prefixes = [] });
  push_return = λ b. ok (record { root = 1; index = length b });
  leaf = λ b. ok none;
  leaf_count = λ b. ok 0;
  cid_list = λ b. ok [];
  cid = λ b. ok 0;
  stats = λ b. ok stats;
  account = λ b. ok account;
  account_option = λ b. ok (some account);
  credit_approval = λ b. ok (record {
    credit_limit = none;
    gas_fee_limit = none;
    expiry = none;
    credit_used = pos 0;
    gas_fee_used = pos 0;
  });
  address_option = λ b. ok none;
  config = λ b. ok config;
  show_kind = show_kind;
  show_credit = λ c. "1";
  show_token = λ c. "1";
  show_ttl = λ c. "1";
  show_eth_address = λ b. text_of b;
  address_option_name = "Option<Address>";
  config_name = "RecallConfig";
  object_name = "Object";
}
