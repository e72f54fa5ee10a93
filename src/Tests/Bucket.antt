-- ===== src/Tests/Bucket.antt =====
-- Tests of buckets: what is refused before anything is sent, and what a download writes.
use rust_recall.Base.{
  ℕ, suc, ◌≡◌, refl, none, some, ok, err, inl, arith, [], ◌∷◌, String, true, false, if◌then◌else◌,
  ◌==◌,
}
use rust_recall.Fvm.{committed}
use rust_recall.Provider.Query.{call_actor}
use rust_recall.Base.Text.{str_eq}
use rust_recall.Provider.Message.{set_limits}
use rust_recall.Provider.Response.{decode_as, decode_bytes}
use rust_recall.Provider.Tx.{commit, TxResult, committed_result}
use rust_recall.Provider.Traits.{Provider}
use rust_recall.Provider.JsonRpc.{JsonRpcProvider, json_rpc_provider}
use rust_recall.Provider.JsonRpc.Rpc.{Client, HttpResponse}
use rust_recall.Signer.World.{World}
use rust_recall.Signer.Traits.{Signer}
use rust_recall.Signer.Wallet.{
  new_message, with_gas_limit, sign_and_perform, send_transaction, wallet_signer,
}
use rust_recall.Sdk.Codecs.{Codecs, Object}
use rust_recall.Sdk.Call.{decode_with, read_actor, transact}
use rust_recall.Sdk.Machine.{Machine}
use rust_recall.Sdk.Bucket.{
  AddOptions, GetOptions, File, Platform, decode_get, open_object, broadcast_object, add_reader,
  add_from_path,
}
use rust_recall.Sdk.Bucket.Added.{Added, add_from_path-Added}
use rust_recall.Sdk.Bucket.Metadata.{validate_metadata}
use rust_recall.Sdk.Bucket.Upload.{add_from_path_refused}
use rust_recall.Tests.Samples.{chain, client, node, wallet, world, gas}
use rust_recall.Tests.Accounts.{codecs}

abbrev signer : Signer chain ℕ
signer = wallet_signer chain wallet

-- The object API streams two chunks and then fails.
abbrev provider : Provider chain ℕ
provider = record (json_rpc_provider chain client node) {
  queries = record {
    query = λ q at n. (ok (record { code = 0; info = ""; key = []; value = []; height = 0 }), n);
  };
  download = λ address key range at n. (ok (ok (1 ∷ []) ∷ ok (2 ∷ 3 ∷ []) ∷ err "reset" ∷ []), n);
}

abbrev found : Codecs chain
found = record codecs { object = λ b. ok (some (record { hash = []; size = 3 })) }

abbrev bucket : Machine chain
bucket = record { address = 40 }

abbrev big_file : File
big_file = record {
  total_size = ok 5000000001;
  rewind = ok tt;
  reader = record { peek = ok []; stream = [] };
}

abbrev pub platform : Platform
platform = record {
  canonicalize = λ p. ok p;
  open_file = λ p. ok big_file;
  infer_type = λ b. none;
  parse_hash = λ s. ok [];
  max_metadata_key_size = 32;
  max_metadata_value_size = 128;
}

abbrev options : AddOptions
options = record {
  ttl = none;
  metadata = [];
  overwrite = false;
  token_amount = none;
  broadcast_mode = commit;
  gas_params = gas;
}

add_from_path_refused_example :
    (e : String) × (add_from_path chain codecs platform bucket provider signer 1 "key" "file"
        options world
      ≡ (err e, world))
add_from_path_refused_example =
    add_from_path_refused chain codecs platform bucket provider signer 1 "key" "file" "file" options
      world big_file 5000000001 refl refl refl refl [] refl (inl (ground arith))

abbrev get_options : GetOptions
get_options = record { range = none; height = committed }

opens :
    open_object chain found platform bucket provider "key" get_options 0
    ≡ (ok (ok (1 ∷ []) ∷ ok (2 ∷ 3 ∷ []) ∷ err "reset" ∷ []), 0)
unfolding open_object read_actor call_actor decode_get decode_with decode_bytes
opens = refl

-- An object API that answers every request
abbrev answered : HttpResponse
answered = record {
  is_success = true;
  text = err "no text";
  node_addr = ok (record { node_id = 11 ∷ [] });
  upload_response = ok (record { hash = "hash"; metadata_hash = "metadata" });
  content_length = none;
  stream = [];
}

abbrev online : Client chain
online = record client { http = λ r n. (ok answered, suc n) }

abbrev storing : JsonRpcProvider
storing = record { chain_id = 31; objects = some "url/" }

abbrev small_file : File
small_file = record {
  total_size = ok 2;
  rewind = ok tt;
  reader = record { peek = ok (1 ∷ 2 ∷ []); stream = ok (1 ∷ 2 ∷ []) ∷ [] };
}

abbrev small_files : Platform
small_files = record platform {
  open_file = λ p. ok small_file;
  parse_hash = λ s. if str_eq s "hash" then ok (21 ∷ []) else ok (22 ∷ []);
}

abbrev added : TxResult chain Object
added = committed_result chain 9 (some (record { hash = 4 ∷ []; size = 0 }))

abbrev after_adding : World ℕ
after_adding = record world { net = 7; cells = λ j. if 0 == j then 7 else 6 }

adds :
    add_from_path chain codecs small_files bucket
      (json_rpc_provider chain online storing)
      signer
      1
      "key"
      "file"
      options
      world
    ≡ (ok added, after_adding)
unfolding add_from_path add_reader broadcast_object json_rpc_provider transact wallet_signer
    send_transaction with_gas_limit new_message set_limits sign_and_perform decode_as decode_bytes
    validate_metadata
adds = refl

add_from_path-Added_example :
    Added chain codecs small_files online storing bucket signer 1 "key" "file" options world
      after_adding added
add_from_path-Added_example =
    add_from_path-Added chain codecs small_files online storing bucket signer 1 "key" "file" options
      world after_adding added adds
