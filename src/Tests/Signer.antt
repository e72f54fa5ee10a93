-- ===== src/Tests/Signer.antt =====
-- Tests of the signers: subnet IDs, and the transactions of a wallet.
use rust_recall.Base.{
  ℕ, ◌%◌, ◌+◌, ◌≡◌, ◌≢◌, refl, none, some, ok, err, arith, suc, List, [], ◌∷◌, get_elem?,
}
use rust_recall.Base.Int.{pos}
use rust_recall.Base.Text.{u64_mod}
use rust_recall.Base.Text.Decimal.{parse_u64-show, Lacks-show}
use rust_recall.Fvm.{Message, AbciQuery, GasEstimate, signed, Fvm}
use rust_recall.Provider.Tx.{commit, async}
use rust_recall.Provider.Message.{GasParams, set_limits}
use rust_recall.Provider.Response.{decode_bytes}
use rust_recall.Provider.Traits.{Provider}
use rust_recall.Provider.Query.{estimate_gas_limit}
use rust_recall.Provider.JsonRpc.{json_rpc_provider}
use rust_recall.Provider.Util.{parse_address}
use rust_recall.Signer.Subnet.{SubnetId, display, parse_subnet_id}
use rust_recall.Signer.Subnet.RoundTrip.{IsPrintable, parse_subnet_id-display}
use rust_recall.Signer.Wallet.Estimate.{
  HasEstimate, exit_error, send_transaction_estimated, send_transaction_unestimated,
}
use rust_recall.Signer.Wallet.{
  Wallet, sign_message, with_gas_limit, sign_and_perform, send_transaction, new_message,
}
use rust_recall.Signer.Wallet.Sequence.{CountedUp, sign_and_perform-CountedUp}
use rust_recall.Signer.Wallet.Schedule.{System, Event, starting, estimate, submit, step, run}
use rust_recall.Signer.Wallet.Schedule.Recorded.{Recording, recording, SignedWith}
use rust_recall.Signer.Wallet.Schedule.Sequences.{CanSign, run-sequence, run-sequence_ne}
use rust_recall.Tests.Samples.{chain, chain-IsSubnetPath, client, node, wallet, world, gas}

abbrev provider : Provider chain ℕ
provider = json_rpc_provider chain client node

abbrev message : Message ℕ
message = record (new_message chain wallet 4 (pos 0) 2 (1 ∷ []) gas) { gas_limit = 0 }

-- Two tasks, both waiting for an estimate, of a provider that keeps what it is given
abbrev pub two_tasks : System chain (Recording chain ℕ)
two_tasks = record {
  world = record { net = (0, []); cells = λ j. 6; next = 1 };
  phase = λ i. starting message;
}

abbrev pub schedule : List (Event chain)
schedule = estimate 0 ∷ estimate 1 ∷ submit 1 ∷ submit 0 ∷ []

abbrev ran : System chain (Recording chain ℕ)
ran = run chain (recording chain provider) async (decode_bytes chain) wallet schedule two_tasks

given_6 : get_elem? ran.world.net.1 0 ≡ some 6
unfolding run json_rpc_provider sign_and_perform step with_gas_limit estimate_gas_limit
given_6 = refl

given_7 : get_elem? ran.world.net.1 1 ≡ some 7
unfolding run json_rpc_provider sign_and_perform step with_gas_limit estimate_gas_limit
given_7 = refl

can_sign : CanSign chain wallet
unfolding sign_message
can_sign m = (m.sequence, refl)

run-sequence_example : SignedWith chain wallet ((6 + 1) % u64_mod) 7
run-sequence_example =
    run-sequence chain provider async (decode_bytes chain) wallet schedule two_tasks 1 can_sign refl
      (ground arith) given_7

run-sequence_ne_example :
    (a b : ℕ) × (a ≢ b) × SignedWith chain wallet a 6 × SignedWith chain wallet b 7
run-sequence_ne_example =
    run-sequence_ne chain provider async (decode_bytes chain) wallet schedule two_tasks 0 1 refl
      (ground arith) (ground arith) (ground arith) given_6 given_7

sign_and_perform-CountedUp_example :
    CountedUp 0 world
      (sign_and_perform chain provider commit (decode_bytes chain) wallet message world).1
sign_and_perform-CountedUp_example =
    sign_and_perform-CountedUp chain provider commit (decode_bytes chain) wallet message world

abbrev no_gas : GasParams
no_gas = record gas { gas_limit = 0 }

abbrev run_estimate : ℕ → GasEstimate
run_estimate code = record { exit_code = code; info = ""; gas_limit = 50 }

abbrev empty_answer : AbciQuery
empty_answer = record { code = 0; info = ""; key = []; value = 5 ∷ []; height = 0 }

estimated :
    HasEstimate chain provider commit
      (decode_bytes chain)
      wallet
      4
      (pos 0)
      2
      []
      no_gas
      world
      1
      (run_estimate 0)
unfolding json_rpc_provider
estimated = record {
  no_limit = refl;
  response = empty_answer;
  answers = refl;
  succeeds = refl;
  decodes = refl;
}

estimate_signed :
    sign_message chain wallet
      (record (new_message chain wallet 4 (pos 0) 2 [] (set_limits no_gas)) {
        gas_limit = 50;
        sequence = 6;
      })
    ≡ ok 6
unfolding sign_message
estimate_signed = refl

send_transaction_estimated_example :
    let sent =
      send_transaction chain provider commit
        (decode_bytes chain)
        wallet
        4
        (pos 0)
        2
        []
        no_gas
        world in
    (sent.0 ≡ (provider.perform (signed 6) commit (decode_bytes chain) 1).0)
    × (sent.1.net ≡ (provider.perform (signed 6) commit (decode_bytes chain) 1).1)
    × CountedUp 0 world sent.1
send_transaction_estimated_example =
    send_transaction_estimated chain provider commit (decode_bytes chain) wallet 4 (pos 0) 2 []
      no_gas world 1 (run_estimate 0) 6 estimated refl estimate_signed

-- A chain on which every estimated run fails
abbrev failing : Fvm
failing = record chain { decode_gas_estimate = λ b. ok (run_estimate 2) }

abbrev failing_wallet : Wallet failing
failing_wallet = record {
  addr = 1;
  sk = 5;
  subnet_id = record { faux = "test"; real = (0, []); explicit_chain_id = none };
  sequence = 0;
}

abbrev failing_provider : Provider failing ℕ
failing_provider = record {
  queries = record { query = λ q at n. (ok empty_answer, suc n) };
  perform = λ m mode decode n. (err "not reached", n);
  eth_tx_receipt = λ h prove n. (err "not reached", n);
  node_addr = λ n. (err "not reached", n);
  upload = λ body size n. (err "not reached", n);
  download = λ address key range at n. (err "not reached", n);
  size = λ address key at n. (err "not reached", n);
}

send_transaction_unestimated_example :
    send_transaction failing failing_provider commit
      (decode_bytes failing)
      failing_wallet
      4
      (pos 0)
      2
      []
      no_gas
      world
    ≡ (err (exit_error (run_estimate 2)), record world { net = 1 })
send_transaction_unestimated_example =
    send_transaction_unestimated failing failing_provider commit (decode_bytes failing)
      failing_wallet 4 (pos 0) 2 [] no_gas world 1 (run_estimate 2)
      (record {
        no_limit = refl;
        response = empty_answer;
        answers = refl;
        succeeds = refl;
        decodes = refl;
      })
      (ground arith)

ten-IsPrintable : IsPrintable chain 10
unfolding parse_address
ten-IsPrintable =
    (ground (arith, parse_u64-show 10 (ground arith)), Lacks-show b'/' 10 (omega arith))

parse_subnet_id-display_example :
    let real : SubnetId chain = record {
      faux = "";
      real = (31, 10 ∷ []);
      explicit_chain_id = none;
    } in
    let faux : SubnetId chain = record {
      faux = "test";
      real = (0, []);
      explicit_chain_id = none;
    } in
    (parse_subnet_id chain (display chain real) ≡ ok real)
    × (parse_subnet_id chain (display chain faux) ≡ ok faux)
parse_subnet_id-display_example =
    parse_subnet_id-display chain chain-IsSubnetPath 31 (10 ∷ []) "test" (ground arith)
      ((ten-IsPrintable, tt)) refl refl
