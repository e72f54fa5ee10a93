-- ===== src/Sdk/Storage.antt =====
-- sdk/src/storage.rs: the statistics of the storage, and what an account uses of it.
use rust_recall.Base.{ℕ, String, Option, Result, unwrap_or, map_ok, []}
use mathlib.Core.Option as Opt
use rust_recall.Base.Text.{show}
use rust_recall.Base.Action.{Action, ◌>>=◌, lift, pure}
use rust_recall.Actors.{get_stats, get_account, get_account_params}
use rust_recall.Fvm.{DeliverTx, FvmQueryHeight, Fvm}
use rust_recall.Provider.Traits.{QueryProvider}
use rust_recall.Sdk.Codecs.{ActorAccount, GetStatsReturn, Codecs}
use rust_recall.Sdk.Call.{decode_with, read_actor}

pub record Usage : Type 0 where
  pub capacity_used : String

-- `Usage::default`
abbrev pub default_usage : Usage
default_usage = record { capacity_used = "0" }

pub record StorageStats : Type 0 where
  pub capacity_free : String
  pub capacity_used : String
  pub num_blobs : ℕ
  pub num_resolving : ℕ
  pub num_accounts : ℕ
  pub bytes_resolving : ℕ
  pub num_added : ℕ
  pub bytes_added : ℕ

-- `impl From<Account> for Usage`
unfoldable pub to_usage : {A : Type 0} → ActorAccount A → Usage
to_usage v = record { capacity_used = show v.capacity_used }

-- `impl From<GetStatsReturn> for StorageStats`
unfoldable pub to_storage_stats : GetStatsReturn → StorageStats
to_storage_stats v = record {
  capacity_free = show v.capacity_free;
  capacity_used = show v.capacity_used;
  num_blobs = v.num_blobs;
  num_resolving = v.num_resolving;
  num_accounts = v.num_accounts;
  bytes_resolving = v.bytes_resolving;
  num_added = v.num_added;
  bytes_added = v.bytes_added;
}

module _ (F : Fvm) (K : Codecs F) where
  decode_stats : DeliverTx → Result StorageStats
  decode_stats tx =
      map_ok to_storage_stats (decode_with F K.stats "error parsing as StorageStats" tx)

  decode_usage : DeliverTx → Result (Option Usage)
  decode_usage tx =
      map_ok (λ v. Opt.map to_usage v)
        (decode_with F K.account_option "error parsing as Option<Usage>" tx)

  module _ {N : Type 0} where
    unfoldable pub stats : QueryProvider F N → FvmQueryHeight → Action N StorageStats
    unfolding decode_stats
    stats provider at = read_actor F provider F.blobs_actor get_stats [] at decode_stats

    unfoldable pub usage : QueryProvider F N → F.Address → FvmQueryHeight → Action N Usage
    unfolding decode_usage
    usage provider address at = do
      params ← lift (F.serialize (get_account_params address))
      account ← read_actor F provider F.blobs_actor get_account params at decode_usage
      pure (unwrap_or account default_usage)
