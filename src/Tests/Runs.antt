-- ===== src/Tests/Runs.antt =====
-- Whole runs of the command line.
use rust_recall.Base.{[], ◌∷◌, ok, ◌≡◌, refl}
use rust_recall.Fvm.{FvmNetwork}
use rust_recall.Cli.Shell.{line}
use rust_recall.Base.Text.{parse_u64}
use rust_recall.Provider.Util.{parse_address, get_eth_address}
use rust_recall.Provider.Message.{set_limits}
use rust_recall.Provider.Query.{get_state_params}
use rust_recall.Provider.Response.{decode_bytes, decode_data}
use rust_recall.Provider.JsonRpc.{json_rpc_provider, perform, eth_tx_receipt}
use rust_recall.Provider.JsonRpc.Connect.{new_http}
use rust_recall.Provider.JsonRpc.Proxy.{http_client}
use rust_recall.Signer.Key.{random_secretkey}
use rust_recall.Signer.Subnet.{parse_subnet_id}
use rust_recall.Signer.Wallet.{
  new_wallet, set_sequence, wallet_signer, send_transaction, with_gas_limit, new_message,
  sign_and_perform, number_message, sign_message,
}
use rust_recall.Sdk.Call.{transact, decode_with}
use rust_recall.Sdk.Credits as Credits
use rust_recall.Sdk.Credits.Convert.{to_balance, to_approvals}
use rust_recall.Sdk.Network.{get_config}
use rust_recall.Cli.Shell.{print_json, print_tx_json}
use rust_recall.Cli.Options.{get_network, get_mode, to_tx_params}
use rust_recall.Cli.Tx.{connect, tx_signer}
use rust_recall.Cli.Account.Run.{run_account, handle_account}
use rust_recall.Cli.Credit.{run_credit, handle_credit}
use rust_recall.Cli.Main.{main, dispatch}
use rust_recall.Tests.Samples.{chain}
use rust_recall.Tests.Host.{host, shell}
use rust_recall.Tests.Cli.{new_account}
use rust_recall.Tests.Programs.{counting_host, counting_shell, purchase}

-- `account create` takes one random key, asks nobody, and prints one line.
created :
    main chain host new_account (FvmNetwork.mainnet, shell)
    ≡ (ok tt, (FvmNetwork.testnet, record shell { rng = 4; printed = line "json" ∷ [] }))
unfolding main get_config get_network parse_subnet_id parse_address parse_u64 dispatch
    handle_account connect new_http http_client run_account get_eth_address print_json
    random_secretkey
created = refl

bought : (main chain host purchase (FvmNetwork.mainnet, shell)).1.1.printed ≡ line "json" ∷ []
unfolding main get_config get_network parse_subnet_id parse_address parse_u64 dispatch
    handle_account connect new_http http_client run_account handle_credit run_credit tx_signer
    new_wallet set_sequence to_tx_params Credits.buy transact wallet_signer send_transaction
    with_gas_limit new_message set_limits sign_and_perform number_message sign_message
    json_rpc_provider perform get_mode print_tx_json Credits.decode_buy decode_with decode_bytes
    decode_data to_balance to_approvals eth_tx_receipt get_state_params
bought = refl

-- On a network that counts, one transaction has been broadcast.
bought_once :
    (main chain counting_host purchase (FvmNetwork.mainnet, counting_shell)).1.1.world.net ≡ 1
unfolding main get_config get_network parse_subnet_id parse_address parse_u64 dispatch
    handle_account connect new_http http_client run_account handle_credit run_credit tx_signer
    new_wallet set_sequence to_tx_params Credits.buy transact wallet_signer send_transaction
    with_gas_limit new_message set_limits sign_and_perform number_message sign_message
    json_rpc_provider perform get_mode print_tx_json Credits.decode_buy decode_with decode_bytes
    decode_data to_balance to_approvals eth_tx_receipt get_state_params
bought_once = refl
