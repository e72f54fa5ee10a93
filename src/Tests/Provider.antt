-- ===== src/Tests/Provider.antt =====
-- Tests of the provider: messages, transactions, queries and parsers.
use rust_recall.Base.{ℕ, ◌≡◌, refl, some, ok, err, inr, arith, if◌then◌else◌, ◌==◌, suc, [], ◌∷◌}
use rust_recall.Base.Int.{pos, ◌≤ℤ◌}
use rust_recall.Fvm.{Bytes, signed, committed, AbciQuery}
use rust_recall.Provider.Message.{GasParams, set_limits, local_message}
use rust_recall.Provider.Message.Limits.{MeetsLimits, set_limits_least}
use rust_recall.Provider.Tx.{commit, TxResult, committed_result}
use rust_recall.Provider.Traits.{QueryProvider}
use rust_recall.Provider.Response.{decode_bytes}
use rust_recall.Provider.Query.{call_actor}
use rust_recall.Provider.Query.Laws.{call_actor-decode_bytes}
use rust_recall.Provider.JsonRpc.{eth_tx_receipt, format_err, perform}
use rust_recall.Provider.JsonRpc.Commit.{Reports, perform-Reports, perform_rejected}
use rust_recall.Tests.Samples.{chain, chain-IsBase64, client, client_with, response_with, gas}

abbrev high : GasParams
high = record { gas_limit = 1; gas_fee_cap = pos 100; gas_premium = pos 9 }

set_limits_least_example :
    let r = set_limits gas in
    MeetsLimits r
    × (gas.gas_fee_cap ≤ℤ r.gas_fee_cap)
    × (gas.gas_premium ≤ℤ r.gas_premium)
    × (r.gas_limit ≡ gas.gas_limit)
    × (r.gas_fee_cap ≤ℤ high.gas_fee_cap)
    × (r.gas_premium ≤ℤ high.gas_premium)
set_limits_least_example = set_limits_least gas high (ground arith) (ground arith) (ground arith)

abbrev performed : TxResult chain Bytes
performed = committed_result chain 9 (some (4 ∷ []))

commit_runs : perform chain client (decode_bytes chain) 31 (signed 8) commit 0 ≡ (ok performed, 5)
unfolding perform decode_bytes eth_tx_receipt
commit_runs = refl

perform-Reports_example :
    Reports chain client (decode_bytes chain) 31 (signed 8) commit 0 5 performed
perform-Reports_example =
    perform-Reports chain client (decode_bytes chain) 31 (signed 8) commit 0 5 performed commit_runs

perform_rejected_example :
    perform chain (client_with 5) (decode_bytes chain) 31 (signed 8) commit 0
    ≡ (err (if 0 == 0 then format_err "info" "log" else format_err "" ""), 1)
perform_rejected_example =
    perform_rejected chain (client_with 5) (decode_bytes chain) 31 (signed 8) 0 1 (3 ∷ [])
      (response_with 5) refl refl (inr (ground arith))

abbrev answer : AbciQuery
answer = record { code = 0; info = ""; key = []; value = 5 ∷ []; height = 2 }

abbrev answering : QueryProvider chain ℕ
answering = record { query = λ q at n. (ok answer, suc n) }

call_actor-decode_bytes_example :
    call_actor chain answering (local_message chain 17 2 []) committed (decode_bytes chain) 0
    ≡ (ok (record { height = 2; value = 5 ∷ [] }), 1)
call_actor-decode_bytes_example =
    call_actor-decode_bytes chain chain-IsBase64 answering (local_message chain 17 2 []) committed 0
      answer 1 (5 ∷ []) (5 ∷ []) (record { code = 0; data_bytes = 5 ∷ []; log = ""; info = "" })
      refl refl refl refl refl refl
