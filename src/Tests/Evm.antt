-- ===== src/Tests/Evm.antt =====
-- Tests of the transfers on an EVM chain whose state counts the calls.
use rust_recall.Base.{
  ℕ, suc, ◌+◌, ◌*◌, ◌≤◌, ◌≢◌, All, arith, String, ◌≡◌, refl, some, none, ok, [], ◌∷◌,
}
use rust_recall.Base.Int.{pos, negsuc}
use rust_recall.Signer.Traits.{Signer}
use rust_recall.Signer.Wallet.{wallet_signer}
use rust_recall.Sdk.Ipc.Evm.{eip1559, Evm, Send, pay}
use rust_recall.Sdk.Ipc.Fees.Median.{Fits}
use rust_recall.Sdk.Ipc.Manager.Sent.{Sent, Deposited, client_send-bounds, deposit-Deposited}
use rust_recall.Sdk.Ipc.Fees.{
  premium_estimation, fee_and_cap, estimate_priority_fee, positive_rewards, estimate_of_positive,
  base_fee_surged,
}
use rust_recall.Sdk.Ipc.Manager.{
  EvmSubnet, get_gateway, get_eth_signer, get_eth_provider, get_supply_source, client_send,
  call_with_premium_and_pending_block, approve_gateway, fund, withdraw, deposit,
}
use rust_recall.Sdk.Ipc.Manager.Refused.{Refuses, unfundable_refused}
use rust_recall.Tests.Samples.{chain, subnet, wallet}

abbrev signer : Signer chain ℕ
signer = wallet_signer chain wallet

abbrev pub evm : Evm chain
evm = record {
  N = ℕ;
  Http = String;
  show_bearer = λ token. token;
  HeaderValue = String;
  header_value = λ text. ok text;
  HttpClient = Unit;
  build_client = λ builder. ok tt;
  new_provider = λ url client interval. url;
  LocalWallet = ℕ;
  local_wallet = λ sk id. ok sk;
  evm_address = λ a. ok (a ∷ []);
  eth_amount = λ a. ok 0;
  GatewaySubnet = ℕ;
  gateway_subnet = λ p. ok p.0;
  FvmAddress = ℕ;
  fvm_address = λ a. ok a;
  call_kind = eip1559;
  fees = λ c. record {
    latest_base_fee = λ n. (ok (some (some 10)), suc n);
    fee_history = λ n. (ok ((5 ∷ []) ∷ []), suc n);
  };
  get_balance = λ h a n. (ok 3, suc n);
  balance_of = λ h c a n. (ok 4, suc n);
  Pending = ℕ;
  Receipt = ℕ;
  await_receipt = λ p retries n. (ok (some p), suc n);
  threshold = pos 200;
}

abbrev pub send : Send evm
send client r n = (ok n, suc n)

abbrev pub parent : EvmSubnet chain
parent = record {
  id = subnet;
  provider_http = "http://localhost:8545";
  provider_timeout = none;
  auth_token = none;
  registry_addr = 11;
  gateway_addr = 12;
  supply_source = some 13;
}

-- One atto is approved and deposited, in two calls that each ask for the fees, send, and wait.
deposits : deposit chain evm send signer 4 parent subnet (pos 1) 0 ≡ (ok 6, 8)
unfolding deposit approve_gateway get_gateway get_eth_signer get_eth_provider wallet_signer
    get_supply_source client_send call_with_premium_and_pending_block premium_estimation fee_and_cap
    estimate_priority_fee positive_rewards estimate_of_positive base_fee_surged fund
deposits = refl

unfundable_refused_example :
    Refuses 0 (approve_gateway chain evm send signer parent (negsuc 0) 0)
    × Refuses 0 (fund chain evm send signer 4 parent subnet (negsuc 0) 0)
    × Refuses 0 (deposit chain evm send signer 4 parent subnet (negsuc 0) 0)
    × Refuses 0 (withdraw chain evm send signer 4 parent (negsuc 0) 0)
unfundable_refused_example =
    unfundable_refused chain evm send signer 4 parent subnet (negsuc 0) 0 refl

deposit-Deposited_example : Deposited chain evm send signer 4 parent subnet (pos 1) 0 8 6
deposit-Deposited_example =
    deposit-Deposited chain evm send signer 4 parent subnet (pos 1) 0 8 6 deposits

one_block : All (λ b. (b ≢ []) × All Fits b) ((5 ∷ []) ∷ [])
one_block = ground arith

pays : client_send chain evm send ("node", 5) (pay [] 1) 0 ≡ (ok 2, 4)
unfolding client_send call_with_premium_and_pending_block premium_estimation fee_and_cap
    estimate_priority_fee positive_rewards estimate_of_positive base_fee_surged
pays = refl

client_send-bounds_example :
    (sent : Sent chain evm send ("node", 5) (pay [] 1) 0 4 2) × (sent.fee ≤ sent.cap)
    × (10 ≤ sent.cap)
    × (sent.cap ≤ sent.fee + 2 * 10)
client_send-bounds_example =
    client_send-bounds chain evm send ("node", 5) (pay [] 1) 0 1 2 4 2 10 ((5 ∷ []) ∷ []) refl refl
      one_block (ground arith) pays
