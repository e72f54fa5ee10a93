-- ===== src/Tests/Cli.antt =====
-- Tests of the command line: what it writes, its networks, and what it reads.
use rust_recall.Base.{
  ℕ, suc, true, err, ◌<>◌, [], ◌∷◌, none, some, ok, ◌≡◌, ◌≢◌, refl, if◌then◌else◌,
}
use rust_recall.Base.Text.{str_eq, parse_u64}
use rust_recall.Base.Text.Trim.{is_whitespace}
use rust_recall.Fvm.{FvmNetwork}
use rust_recall.Provider.Message.{set_limits, min_gas_fee_cap, min_gas_premium, default_gas_params}
use rust_recall.Provider.Util.{parse_address}
use rust_recall.Signer.Subnet.{parse_subnet_id}
use rust_recall.Signer.Key.{parse_secret_key}
use rust_recall.Signer.Key.RoundTrip.{parse_secret_key-hex_encode}
use rust_recall.Sdk.Credits.Convert.Lookup.{lookup, last_value}
use rust_recall.Sdk.Network.{NetworkConfig, devnet, get_config, mainnet}
use rust_recall.Sdk.Network.Presets.{PresetChain, get_config-PresetChain}
use rust_recall.Fvm.{committed}
use rust_recall.Cli.Tx.{connect}
use rust_recall.Provider.JsonRpc.Connect.{new_http}
use rust_recall.Provider.JsonRpc.Proxy.{http_client}
use rust_recall.Sdk.Bucket.{open_object, decode_get}
use rust_recall.Sdk.Call.{read_actor, decode_with}
use rust_recall.Provider.Query.{call_actor}
use rust_recall.Provider.JsonRpc.{json_rpc_provider}
use rust_recall.Provider.Response.{decode_bytes}
use rust_recall.Provider.JsonRpc.Rpc.{HttpResponse}
use rust_recall.Cli.Shell.{Host, Shell, raw}
use rust_recall.Cli.Bucket.{BucketGetArgs}
use rust_recall.Cli.Bucket.Run.{run_get}
use rust_recall.Cli.Bucket.Get.{run_get-raw}
use rust_recall.Tests.Samples.{client, world}
use rust_recall.Tests.Accounts.{codecs}
use rust_recall.Tests.Host.{network}
use rust_recall.Cli.Options as Options
use rust_recall.Cli.Options.{to_tx_params, parse_address_list}
use rust_recall.Cli.Options.Addresses.{join, parse_address_list-SameMembers}
use rust_recall.Base.HashSet.{hash_set, SameMembers}
use mathlib.Core.Logic.Or
use mathlib.Core.List.{Mem, Mem-prop, mem-cons, mem-cons_of_mem}
use rust_recall.Cli.Account.{create}
use rust_recall.Cli.Bucket.{BucketCreateArgs, create_metadata}
use rust_recall.Cli.Bucket.Metadata.{alias_or, create_metadata-lookup}
use rust_recall.Cli.Main.{Cli, account, main}
use rust_recall.Cli.Output.{OneLine}
use rust_recall.Cli.Output.Main.{main-OneLine}
use rust_recall.Cli.Defaults.{raised, set_limits-to_tx_params}
use rust_recall.Tests.Samples.{chain, subnet}
use rust_recall.Tests.Host.{host, shell, keys, keys-IsKeys, urls, no_tx_args}

abbrev network_of_devnet : NetworkConfig chain
network_of_devnet = record {
  subnet_id = subnet;
  rpc_url = "http://127.0.0.1:26657";
  object_api_url = "http://127.0.0.1:8001";
  evm_rpc_url = "http://127.0.0.1:8545";
  evm_gateway_address = 0;
  evm_registry_address = 0;
  parent_network_config = none;
}

-- `account create` on the development network
abbrev pub new_account : Cli chain
new_account = record {
  command = account create;
  network = Options.devnet;
  subnet = none;
  rpc_url = none;
  verbosity = 0;
}

main-OneLine_example :
    let done = main chain host new_account (FvmNetwork.mainnet, shell) in
    OneLine done.0 [] (done.1.1).printed
main-OneLine_example = main-OneLine chain host new_account FvmNetwork.mainnet shell (λ h. h)

set_limits-to_tx_params_example :
    let gas = set_limits (to_tx_params no_tx_args).gas_params in
    (gas.gas_limit ≡ 0)
    × (gas.gas_fee_cap ≡ raised min_gas_fee_cap default_gas_params.gas_fee_cap)
    × (gas.gas_premium ≡ raised min_gas_premium default_gas_params.gas_premium)
set_limits-to_tx_params_example = set_limits-to_tx_params no_tx_args

parse_secret_key-hex_encode_example :
    (parse_secret_key chain keys (" " <> "aaab" <> "") ≡ ok 3)
    × (parse_secret_key chain keys (" " <> ("0x" <> "aaab") <> "") ≡ ok 3)
unfolding is_whitespace
parse_secret_key-hex_encode_example =
    parse_secret_key-hex_encode chain keys keys-IsKeys 3 " " "" ((refl, tt)) tt

abbrev bucket_args : BucketCreateArgs chain
bucket_args = record {
  private_key = 5;
  owner = none;
  alias = some "files";
  metadata = ("alias", "other") ∷ ("kind", "a") ∷ ("kind", "b") ∷ [];
  tx_args = no_tx_args;
}

create_metadata-lookup_example : lookup "alias" (create_metadata chain bucket_args) ≡ (
    if str_eq "alias" "alias"
    then alias_or (some "files") (last_value "alias" bucket_args.metadata none)
    else last_value "alias" bucket_args.metadata none)
create_metadata-lookup_example = create_metadata-lookup chain bucket_args "alias"

development :
    get_config chain urls devnet FvmNetwork.mainnet ≡ (ok network_of_devnet, FvmNetwork.testnet)
unfolding get_config parse_subnet_id parse_address parse_u64
development = refl

get_config-PresetChain_example :
    (devnet ≢ mainnet)
    × (FvmNetwork.testnet ≡ FvmNetwork.testnet)
    × PresetChain chain urls devnet network_of_devnet
get_config-PresetChain_example =
    get_config-PresetChain chain urls devnet FvmNetwork.mainnet FvmNetwork.testnet network_of_devnet
      development

two : parse_address chain "2" ≡ ok 2
unfolding parse_address parse_u64
two = refl

once : SameMembers {A = ℕ} (2 ∷ 2 ∷ []) (2 ∷ [])
once a = (
  λ m.
      Or.elim (Mem-prop {a = a} {l = 2 ∷ []}) (mem-cons.0 m)
        (λ e. mem-cons.1 (Or.inl {B = Mem a []} e)) (λ n. n),
  λ m. mem-cons_of_mem 2 m,
)

parse_address_list-SameMembers_example :
    (parse_address_list chain (join "2" ("2" ∷ [])) ≡ ok (hash_set (2 ∷ 2 ∷ [])))
    × (parse_address_list chain (join "2" []) ≡ parse_address_list chain (join "2" ("2" ∷ [])))
parse_address_list-SameMembers_example =
    parse_address_list-SameMembers chain ("2", 2) (("2", 2) ∷ []) ("2", 2) [] ((refl, tt), two)
      ((((refl, tt), two), tt)) ((refl, tt), two) tt once

-- The object API streams two chunks, and then fails.
abbrev response : HttpResponse
response = record {
  is_success = true;
  text = ok "";
  node_addr = err "";
  upload_response = err "";
  content_length = none;
  stream = ok (1 ∷ []) ∷ ok (2 ∷ 3 ∷ []) ∷ err "reset" ∷ [];
}

abbrev streaming : Host chain
streaming = record host {
  client = record client { http = λ request n. (ok response, suc n) };
  codecs = record codecs { object = λ b. ok (some (record { hash = []; size = 3 })) };
}

abbrev idle : Shell chain streaming
idle = record { world = world; evm = 0; rng = 3; printed = [] }

abbrev get_args : BucketGetArgs chain
get_args = record {
  object_api_url = none;
  address = 40;
  key = "file";
  range = none;
  height = committed;
}

run_get-raw_example :
    let done = run_get chain streaming network get_args idle in
    (done.0 ≡ err "reset") × (done.1.printed ≡ raw (1 ∷ []) ∷ raw (2 ∷ 3 ∷ []) ∷ [])
unfolding connect new_http http_client open_object read_actor call_actor json_rpc_provider
    decode_get decode_with decode_bytes
run_get-raw_example =
    run_get-raw chain streaming network get_args idle ((1 ∷ []) ∷ (2 ∷ 3 ∷ []) ∷ [])
      (some ("reset", [])) refl refl
