-- ===== src/Sdk/Credits/Convert.antt =====
-- sdk/src/credits.rs: the printable forms of accounts, approvals and statistics.
pub mod Lookup
use rust_recall.Base.{
  ℕ, zero, String, List, [], ◌∷◌, Option, none, some, Result, ok, ◌>>=◌, expect_ok, map_ok,
  transpose, if◌then◌else◌,
}
use rust_recall.Base.Int.{ℤ, pos}
use rust_recall.Base.Text.{str_eq}
use mathlib.Core.Option as Opt
use rust_recall.Fvm.{Fvm}
use rust_recall.Provider.Util.{parse_address, get_eth_address}
use rust_recall.Sdk.Codecs.{CreditApproval, ActorAccount, GetStatsReturn, Codecs}

pub record Approval : Type 0 where
  pub credit_limit : Option String
  pub gas_fee_limit : Option String
  pub expiry : Option ℤ
  pub credit_used : String
  pub gas_fee_used : String

-- The approvals are keyed by Ethereum addresses; no key stands twice.
abbrev pub Approvals : Type 0
Approvals = List (String × Approval)

pub record Balance : Type 0 where
  pub credit_free : String
  pub credit_committed : String
  pub credit_sponsor : Option String
  pub last_debit_epoch : Option ℤ
  pub approvals_to : Approvals
  pub approvals_from : Approvals
  pub max_ttl : ℤ
  pub gas_allowance : String

pub record CreditStats : Type 0 where
  pub balance : String
  pub credit_sold : String
  pub credit_committed : String
  pub credit_debited : String
  pub token_credit_rate : ℤ
  pub num_accounts : ℕ

-- `impl Default for Balance`
abbrev pub default_balance : Balance
default_balance = record {
  credit_free = "0";
  credit_committed = "0";
  credit_sponsor = none;
  last_debit_epoch = some (pos 0);
  approvals_to = [];
  approvals_from = [];
  max_ttl = pos 0;
  gas_allowance = "0";
}

-- `HashMap::insert`
unfoldable pub insert : {A : Type 0} → String → A → List (String × A) → List (String × A)
insert key value [] = (key, value) ∷ []
insert key value (entry ∷ rest) =
    if str_eq entry.0 key then (key, value) ∷ rest else entry ∷ insert key value rest

-- `into_iter().collect::<HashMap<_, _>>()`: the entries are inserted in order.
insert_all : {A : Type 0} → List (String × A) → List (String × A) → List (String × A)
insert_all m [] = m
insert_all m (entry ∷ rest) = insert_all (insert entry.0 entry.1 m) rest

unfoldable pub collect : {A : Type 0} → List (String × A) → List (String × A)
unfolding insert_all
collect entries = insert_all [] entries

-- The epoch 0 stands for no debit.
unfoldable pub debit_epoch : ℤ → Option ℤ
debit_epoch (pos zero) = none
debit_epoch epoch = some epoch

module _ (F : Fvm) (K : Codecs F) where
  unfoldable pub to_approval : CreditApproval → Approval
  to_approval v = record {
    credit_limit = Opt.map K.show_credit v.credit_limit;
    gas_fee_limit = Opt.map K.show_token v.gas_fee_limit;
    expiry = v.expiry;
    credit_used = K.show_credit v.credit_used;
    gas_fee_used = K.show_token v.gas_fee_used;
  }

  unfoldable pub eth_text : F.Address → Result String
  eth_text a =
      map_ok K.show_eth_address (expect_ok (get_eth_address F a) "failed to get ethereum address")

  unfoldable pub approval_key : String → Result String
  approval_key k = do
    a ← expect_ok (parse_address F k) "failed to parse address from string"
    eth_text a

  -- An entry that comes later replaces one with the same key.
  unfoldable pub to_approvals : List (String × CreditApproval) → Approvals → Result Approvals
  to_approvals [] done = ok done
  to_approvals (entry ∷ rest) done = do
    key ← approval_key entry.0
    to_approvals rest (insert key (to_approval entry.1) done)

  -- `impl From<Account> for Balance`
  unfoldable pub to_balance : ActorAccount F.Address → Result Balance
  to_balance v = do
    credit_sponsor ← transpose (Opt.map eth_text v.credit_sponsor)
    approvals_to ← to_approvals v.approvals_to []
    approvals_from ← to_approvals v.approvals_from []
    ok (record {
      credit_free = K.show_credit v.credit_free;
      credit_committed = K.show_credit v.credit_committed;
      credit_sponsor = credit_sponsor;
      last_debit_epoch = debit_epoch v.last_debit_epoch;
      approvals_to = approvals_to;
      approvals_from = approvals_from;
      max_ttl = v.max_ttl;
      gas_allowance = K.show_token v.gas_allowance;
    })

  -- `impl From<GetStatsReturn> for CreditStats`
  unfoldable pub to_credit_stats : GetStatsReturn → CreditStats
  to_credit_stats v = record {
    balance = K.show_token v.balance;
    credit_sold = K.show_credit v.credit_sold;
    credit_committed = K.show_credit v.credit_committed;
    credit_debited = K.show_credit v.credit_debited;
    token_credit_rate = v.token_credit_rate;
    num_accounts = v.num_accounts;
  }
