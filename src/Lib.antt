-- ===== src/Lib.antt =====
-- The client of the Recall network: the crates `recall_provider`, `recall_signer`, `recall_sdk` and
-- `recall`, the command line.
--
-- A provider (provider/src) asks a node for the state of the chain and broadcasts signed messages
-- to it, through the CometBFT RPC, and moves objects through an HTTP API. A signer (signer/src)
-- holds an address, and, if it is a wallet, a secret key and a sequence, which counts the
-- transactions of the account: it makes, signs and broadcasts a message through a provider. The
-- sdk (sdk/src) offers the operations of the network, machines, credits, accounts and
-- configuration, each of which is one read-only call or one transaction of a signer. A command of
-- the command line (cli/src) takes the presets of a network, makes a provider and, for a
-- transaction, a wallet with a sequence, calls the sdk, and prints what it returns. The examples
-- (sdk/examples) are programs that do the same on the testnet with fixed arguments.
--
-- Files, and the code that they model:
--   Base, Base/*            no code of the program: tests on numbers, lists, sets (HashSet, a quotient
--                           of lists), `Result` with panics, calls that change a state, and how far
--                           they move it (Action/Meter),
--                           texts as Rust's `str` reads them
--   Fvm, Actors             the types and functions of the crates that the client is built on, as
--                           a record of parameters, and what is sent to the chain's actors
--   Provider/Message        provider/src/message.rs (`GasParams`, `local_message`)
--   Provider/Tx             provider/src/tx.rs (broadcast modes, results)
--   Provider/Response       provider/src/response.rs (`decode_bytes`, `decode_as`); Response/Cid: `Cid`
--   Provider/Traits         the required methods of provider/src/{query,tx,object,provider}.rs
--   Provider/Query          provider/src/query.rs; `call` is `call_actor`, `actor_state` is
--                           `get_actor_state`
--   Provider/JsonRpc        provider/src/json_rpc.rs (`query`, `perform`, `eth_tx_receipt`, the
--                           object API, the proxy, `new_http`; JsonRpc/Answered: what the object API
--                           was asked when it answered)
--   Provider/Broadcasts,    what each layer broadcasts: the interface `BroadcastsOnce` of a provider,
--     JsonRpc/Broadcasts,   with the JSON RPC provider, and wallets and commands, which use it
--     Signer/Wallet/Broadcasts,
--     Cli/Broadcasts
--   Provider/Util           provider/src/util.rs (parsers of addresses, heights, metadata, amounts)
--   Signer/Subnet           signer/src/subnet.rs (`SubnetID`)
--   Signer/World            the state of the signers: the network, and one cell for each
--                           `Arc<Mutex<u64>>` of signer/src/wallet.rs, shared by clones
--   Signer/Traits, Void     signer/src/signer.rs, signer/src/void.rs
--   Signer/Wallet           signer/src/wallet.rs; Wallet/Estimate: where the chain estimates the gas
--                           limit. Wallet/Schedule is no code of the program: it runs tasks that
--                           share a wallet, in any interleaving at its lock, each of which calls
--                           the two parts of `send_transaction` in turn (Schedule/Recorded: a
--                           provider that keeps what it is given; Sequences, Refines: what it is
--                           then given)
--   Sdk/Call                the two ways in which the sdk reaches an actor
--   Sdk/Machine, Timehub    sdk/src/machine.rs, sdk/src/machine/timehub.rs
--   Sdk/Credits             sdk/src/credits.rs
--   Sdk/Account, Config     sdk/src/account.rs, sdk/src/subnet.rs; Sdk/Account/Funds holds what
--                           goes through the EVM: balances, deposit, withdrawal, transfer
--   Signer/Key              signer/src/key.rs
--   Sdk/Bucket              sdk/src/machine/bucket.rs (`broadcast_object` is the second half of
--                           `add_reader`; Bucket/Inversion, Added: what a success went through)
--   Sdk/Storage             sdk/src/storage.rs
--   Sdk/Ipc/Fees            sdk/src/ipc/manager.rs (the estimate of fees)
--   Sdk/Ipc/Evm, Manager    sdk/src/ipc/manager.rs (`EvmManager`, whose `deposit` is `fund` here), with
--                           `deposit` of sdk/src/account.rs; Evm holds the parameters
--   Sdk/Network             sdk/src/network.rs (the presets, `Network`)
--   Cli/Options             cli/src/main.rs (options; `Network::get` is `get_network`,
--                           `BroadcastMode::get` is `get_mode`, `TtlStatus::get` is `get_status`)
--   Cli/Shell, Json         cli/src/main.rs (`print_json`, `print_tx_json`): the state of a command
--                           with its standard output, and the values that it prints
--   Cli/Tx                  how every transaction of a command begins (in each handler of cli/src)
--   Cli/Credit, Subnet,     cli/src/credit.rs, subnet.rs, storage.rs, machine.rs, machine/timehub.rs,
--     Storage, Machine,     machine/bucket.rs, account.rs: the options of a command and its handler,
--     Timehub, Bucket,      `handle_credit` and so on; a `run_` function is the handler behind the
--     Account               making of the provider, or one command of it
--   Cli/Main                cli/src/main.rs (`main`)
--   Cli/Output, Defaults    what commands write, and what options that are left out stand for
--   Cli/Account/Create      what `account create` prints, as later commands read it
--   Examples/AccountCreate, sdk/examples/account_create.rs, account_balance.rs and account_deposit.rs
--     Account,              (both in Account), timehub_push.rs, bucket_add.rs, credits.rs; each `main`
--     TimehubPush,          is split where its comments split it. Process holds the arguments and the
--     BucketAdd, Credits,   parameters, Counting and Transactions how many transactions a program
--     Process, Ends         signs, Ends how they end
--   Tests                   concrete runs on a small chain
--
-- How the code is modelled. An asynchronous call is a function from a state to a result and the
-- next state (Base/Action): an error keeps the state that it reached, and a panic is a result of
-- its own. The network's state is a parameter of the RPC client, whose methods are fields of
-- `Client` (Provider/JsonRpc/Rpc); the CBOR, base64, signature and address functions are fields
-- of `Fvm`, with two records of laws, `IsBase64` and `IsSubnetPath`; what the command line calls
-- besides is in `Host` (Cli/Shell), with the laws `IsKeys` and `IsCid` where they are used, and
-- what the examples call in `Crates` (Examples/Process). Where broadcasts are counted, the
-- network has a count that `CountsBroadcasts` (Provider/JsonRpc/Broadcasts) says which calls of
-- the client change. The options of a command arrive parsed, and an exit with a usage error is an
-- error. Numbers of 64 bits keep their bound: a sequence wraps at 2^64, as the release build
-- does, and a parser of numbers refuses more. Token amounts are integers without bound, as in the
-- source. A map is a list of entries in the order in which it is iterated over; a `HashSet` is a
-- list in which neither order nor repetition counts. No recursion needs fuel but the printer of
-- decimal numbers, whose fuel is the number itself plus one.
--
-- Not modelled: the parsing of arguments by `clap`, the log, and how `serde_json` writes a value;
-- progress bars; the integration tests, which run against a live network; the
-- waits of the examples; the timing of retries, which is the parameter `retry`;
-- and the opening of sockets.
pub mod Base
pub mod Actors
pub mod Fvm
pub mod Provider
pub mod Signer
pub mod Sdk
pub mod Cli
pub mod Examples
pub mod Tests
