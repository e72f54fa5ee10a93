-- ===== src/Tests/Samples.antt =====
-- A small chain for the tests: addresses and hashes are numbers, bytes are printed in unary, and
-- every codec of an answer gives a fixed value.
use Prim.Native.Char.{code}
use Prim.Native.String.{[] as nil, ◌∷◌ as cons}
use rust_recall.Base.{
  ℕ, zero, suc, String, true, false, List, [], ◌∷◌, none, ok, err, ◌≡◌, refl, ap, ◌==◌,
  if◌then◌else◌, length,
}
use rust_recall.Base.Int.{pos}
use rust_recall.Base.Text.{show, parse_u64, starts_with}
use rust_recall.Fvm.{
  Bytes, id, parsed, failed, invalid, committed, pending, height, signed, FvmQueryHeight,
  FvmNetwork, ParsedAddress, Fvm, IsBase64, IsSubnetPath,
}
use rust_recall.Provider.JsonRpc.{JsonRpcProvider}
use rust_recall.Provider.JsonRpc.Rpc.{Client, CommitResponse}
use rust_recall.Signer.World.{World}
use rust_recall.Signer.Subnet.{SubnetId}
use rust_recall.Signer.Wallet.{Wallet}
use rust_recall.Provider.Message.{GasParams}

abbrev pub unary : ℕ → String → String
unary zero rest = cons "b" rest
unary (suc n) rest = cons "a" (unary n rest)

abbrev pub text_of : Bytes → String
text_of [] = ""
text_of (n ∷ b) = unary n (text_of b)

abbrev bump : Bytes → Bytes
bump [] = []
bump (n ∷ b) = suc n ∷ b

abbrev pub bytes_of : String → Bytes
bytes_of nil = []
bytes_of (cons c s) = if code c == b'b' then 0 ∷ bytes_of s else bump (bytes_of s)

pub bytes_of-unary : (n : ℕ) (rest : String) → bytes_of (unary n rest) ≡ n ∷ bytes_of rest
bytes_of-unary zero rest = refl
bytes_of-unary (suc n) rest = ap bump (bytes_of-unary n rest)

pub bytes_of-text_of : (b : Bytes) → bytes_of (text_of b) ≡ b
bytes_of-text_of [] = refl
bytes_of-text_of (n ∷ b) = rw bytes_of-unary (ap (◌∷◌ n) (bytes_of-text_of b))

abbrev parse_number : FvmNetwork → String → ParsedAddress ℕ
parse_number network s = elim (parse_u64 s) [
  | ok n ↦ parsed n
  | _ ↦ failed (invalid "not a number")
]

abbrev height_number : FvmQueryHeight → ℕ
height_number committed = 0
height_number pending = 0
height_number (height n) = n

abbrev pub chain : Fvm
chain = record {
  Address = ℕ;
  payload = λ a. id a;
  new_id = λ n. n;
  parse_address = parse_number;
  show_address = show;
  parse_eth_address = λ s. if starts_with s "0x" then ok [] else err "no Ethereum address";
  ethers_address_to_fil_address = λ b. ok (length b);
  eth_address_from_id = λ n. n ∷ [];
  system_actor = 0;
  adm_actor = 17;
  blobs_actor = 66;
  config_actor = 70;
  method_number = λ m. 2;
  block_gas_limit = 10000;
  usr_not_found = 17;
  height_number = height_number;
  max_chain_id = 1000;
  fnv_hash = length;
  SubnetPath = ℕ × List ℕ;
  new_subnet = λ r c. (r, c);
  default_subnet = (0, []);
  root_id = λ p. p.0;
  children = λ p. p.1;
  is_root = λ p. elim p.1 [ [] ↦ true | a ∷ rest ↦ false ];
  parent_subnet = λ p. none;
  subnet_chain_id = λ p. p.0;
  invalid_id = λ i m. m;
  Cid = ℕ;
  serialize = λ p. ok (1 ∷ []);
  encode_query = λ q. ok [];
  decode_bytes = λ b. ok b;
  ProtoDeliverTx = Bytes;
  decode_proto = λ b. ok b;
  deliver_tx_of = λ b. ok (record { code = 0; data_bytes = b; log = ""; info = "" });
  decode_gas_estimate = λ b. ok (record { exit_code = 0; info = ""; gas_limit = 50 });
  decode_actor_state = λ b. ok (record { sequence = 7; balance = pos 5 });
  decode_actor_id = λ b. ok 100;
  decode_state_params = λ b. ok (record { base_fee = pos 1 });
  decode_registry = λ b. ok [];
  base64_encode = λ b. b;
  from_utf8 = λ b. ok (text_of b);
  base64_decode = λ s. ok (bytes_of s);
  SecretKey = ℕ;
  public_key = λ k. k ∷ [];
  secp256k1_address = λ k. ok 1;
  eth_address_of_key = λ k. ok 2;
  Signature = ℕ;
  SignedMessage = ℕ;
  new_secp256k1 = λ m k c. ok m.sequence;
  verify_signature = λ m g c. ok tt;
  encode_chain_message = λ m. ok (3 ∷ []);
  Transaction = ℕ;
  Receipt = ℕ;
  transaction_hash = λ t. t ∷ [];
  receipt_hash = λ r. r ∷ [];
  to_eth_transaction = λ m c. ok m;
}

pub chain-IsBase64 : IsBase64 chain
chain-IsBase64 = record { decode-encode = λ b. ap ok (bytes_of-text_of b) }

pub chain-IsSubnetPath : IsSubnetPath chain
chain-IsSubnetPath = record { root_id-new = λ r c. refl; children-new = λ r c. refl }

abbrev pub response_with : ℕ → CommitResponse
response_with code = record {
  check_tx = record { code = 0; info = ""; log = "" };
  deliver_tx = record { code = code; data_bytes = 4 ∷ []; log = "log"; info = "info" };
  hash = [];
}

-- The state of the network counts the requests; a commit is delivered with the given code.
abbrev pub client_with : ℕ → Client chain
client_with code = record {
  Net = ℕ;
  abci_query =
      λ b h n. (ok (record { code = 0; info = ""; key = []; value = 5 ∷ []; height = h }), suc n);
  broadcast_tx_async = λ b n. (ok tt, suc n);
  broadcast_tx_sync = λ b n. (ok (record { code = 0; log = "" }), suc n);
  broadcast_tx_commit = λ b n. (ok (response_with code), suc n);
  tx = λ hash prove n. (ok (record { height = 3; tx = [] }), suc n);
  Header = ℕ;
  header = λ h n. (ok h, suc n);
  header_height = λ h. h;
  BlockResults = ℕ;
  block_results = λ h n. (ok h, suc n);
  http = λ r n. (err "offline", suc n);
  retry = λ seconds m. m;
  height_of = λ n. ok n;
  Cumulative = ℕ;
  to_cumulative = λ b. b;
  to_chain_message = λ b. ok (signed 8);
  to_eth_receipt = λ m t c h f. ok 9;
  show_hash = λ b. "hash";
  status = λ n. (ok "chain", suc n);
}

abbrev pub client : Client chain
client = client_with 0

abbrev pub node : JsonRpcProvider
node = record { chain_id = 31; objects = none }

abbrev pub subnet : SubnetId chain
subnet = record { faux = "test"; real = (0, []); explicit_chain_id = none }

abbrev pub wallet : Wallet chain
wallet = record { addr = 1; sk = 5; subnet_id = subnet; sequence = 0 }

-- The wallet's cell holds 6.
abbrev pub world : World ℕ
world = record { net = 0; cells = λ j. 6; next = 1 }

abbrev pub gas : GasParams
gas = record { gas_limit = 90; gas_fee_cap = pos 0; gas_premium = pos 7 }
