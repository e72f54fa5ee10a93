-- ===== src/Tests/Host.antt =====
-- What the command line runs on in the tests: the small chain, and crates with simple answers.
use rust_recall.Base.{ℕ, zero, suc, String, [], ◌∷◌, none, ok, err, Result, refl, ap}
use rust_recall.Fvm.{Bytes}
use rust_recall.Provider.JsonRpc.Proxy.{http}
use rust_recall.Provider.JsonRpc.Connect.{Connector}
use rust_recall.Signer.Key.{Keys}
use rust_recall.Signer.Key.RoundTrip.{IsHexText, IsKeys}
use rust_recall.Sdk.Network.{NetworkConfig, Urls}
use rust_recall.Cli.Json.{null}
use rust_recall.Cli.Shell.{Host, Shell}
use rust_recall.Cli.Options.{TxArgs}
use rust_recall.Tests.Samples.{
  chain, client, subnet, unary, text_of, bytes_of, bytes_of-text_of, world,
}
use rust_recall.Tests.Accounts.{codecs}
use rust_recall.Tests.Evm.{evm, send}
use rust_recall.Tests.Bucket.{platform}

abbrev key_of : Bytes → Result ℕ
key_of [] = err "no key"
key_of (k ∷ rest) = ok k

-- A byte is written in unary, with the digits a and b.
abbrev pub keys : Keys chain
keys = record {
  hex_decode = λ s. ok (bytes_of s);
  hex_encode = text_of;
  key_of_bytes = key_of;
  key_bytes = λ k. k ∷ [];
  Rng = ℕ;
  random = λ n. (n, suc n);
}

unary-IsHexText : (n : ℕ) (rest : String) → IsHexText rest → IsHexText (unary n rest)
unary-IsHexText zero rest h = (refl, h)
unary-IsHexText (suc n) rest h = (refl, unary-IsHexText n rest h)

text_of-IsHexText : (b : Bytes) → IsHexText (text_of b)
text_of-IsHexText [] = tt
text_of-IsHexText (n ∷ b) = unary-IsHexText n (text_of b) (text_of-IsHexText b)

pub keys-IsKeys : IsKeys chain keys
keys-IsKeys = record {
  decode-encode = λ b. ap ok (bytes_of-text_of b);
  encode-IsHexText = text_of-IsHexText;
  key_of_bytes-key_bytes = λ k. refl;
}

abbrev pub connector : Connector
connector = record {
  HttpClient = String;
  env = λ name. none;
  parse_url = λ url. ok url;
  scheme = λ url. http;
  new_client = λ url. ok url;
  new_with_proxy = λ url proxy. ok url;
}

abbrev pub urls : Urls
urls = record { rpc_url = λ url. ok url; web_url = λ url. ok url }

abbrev pub host : Host chain
host = record {
  codecs = codecs;
  client = client;
  evm = evm;
  evm_send = send;
  platform = platform;
  keys = keys;
  connector = connector;
  urls = urls;
  to_string_pretty = λ json. ok "json";
  transaction_to_value = λ tx. ok null;
  receipt_to_value = λ receipt. ok null;
  show_rate = λ r. "1";
  show_cid = λ c. "cid";
  show_object_hash = λ h. "hash";
  debug_height = λ h. "committed";
  cid_read_bytes = λ b. ok 1;
  cid_from_str = λ s. ok 1;
  cid_to_bytes = λ c. c ∷ [];
  read_input = λ input. ok [];
}

abbrev pub shell : Shell chain host
shell = record { world = world; evm = 0; rng = 3; printed = [] }

abbrev pub network : NetworkConfig chain
network = record {
  subnet_id = subnet;
  rpc_url = "rpc";
  object_api_url = "objects";
  evm_rpc_url = "evm";
  evm_gateway_address = 12;
  evm_registry_address = 11;
  parent_network_config = none;
}

abbrev pub no_tx_args : TxArgs
no_tx_args = record { gas_limit = none; gas_fee_cap = none; gas_premium = none; sequence = none }
