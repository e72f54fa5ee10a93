-- ===== src/Examples/Account.antt =====
-- sdk/examples/account_balance.rs and sdk/examples/account_deposit.rs: both take a wallet of the
-- parent subnet.
use rust_recall.Base.{
  String, ◌<>◌, List, some, Result, err, ok_or, length, ltb, if◌then◌else◌, ◌>>=◌ as ◌>>=ʳ◌,
}
use rust_recall.Base.Action.{Action, ◌>>=◌, lift}
use rust_recall.Fvm.{Fvm}
use rust_recall.Signer.Key.{parse_secret_key}
use rust_recall.Signer.Subnet.{parent}
use rust_recall.Signer.Traits.{Signer, eth_address}
use rust_recall.Signer.Wallet.{Wallet, ethereum, new_wallet, wallet_signer}
use rust_recall.Sdk.Account.Funds as Account
use rust_recall.Sdk.Network.{NetworkConfig, subnet_config, parent_subnet_config}
use rust_recall.Cli.Shell.{Host, Shell, on_world, on_evm}
use rust_recall.Examples.Process.{Crates, Process, argument, println, on_shell, testnet_config}

module _ (F : Fvm) (H : Host F) (X : Crates F H) where
  -- The key of the arguments
  unfoldable pub key_argument : List String → Result F.SecretKey
  key_argument args =
      if ltb (length args) 2
      then err "missing hex-encoded private key"
      else (argument args 1 >>=ʳ parse_secret_key F H.keys)

  abbrev signer_of : Wallet F → Signer F H.client.Net
  signer_of wallet = wallet_signer F wallet

  unfoldable pub parent_wallet : F.SecretKey → NetworkConfig F → Action (Shell F H) (Wallet F)
  parent_wallet pk cfg = do
    parent_id ← lift (parent F cfg.subnet_id)
    on_world F H (new_wallet F pk ethereum parent_id)

  unfoldable pub show_balance : F.SecretKey → NetworkConfig F → Action (Shell F H) (Unit {0})
  show_balance pk cfg = do
    wallet ← parent_wallet pk cfg
    balance ← on_evm F H (
        Account.balance F H.evm (signer_of wallet)
          (record (subnet_config F cfg) { auth_token = some "some-secret" }))
    address ← lift (eth_address F (signer_of wallet))
    println F H
        ("Balance of " <> H.codecs.show_eth_address address <> ": " <> H.codecs.show_token balance)

  unfoldable pub deposit_one : F.SecretKey → NetworkConfig F → Action (Shell F H) (Unit {0})
  deposit_one pk cfg = do
    wallet ← parent_wallet pk cfg
    above ← lift (parent_subnet_config F cfg)
    from_subnet ← lift (ok_or above "network does not have parent")
    tx ← on_evm F H (
        Account.deposit F H.evm H.evm_send (signer_of wallet) wallet.addr from_subnet cfg.subnet_id
          (X.from_whole 1))
    address ← lift (eth_address F (signer_of wallet))
    _ ← println F H ("Deposited 1 RECALL to " <> H.codecs.show_eth_address address)
    println F H ("Transaction hash: 0x" <> X.hex_receipt_hash tx)

  unfoldable pub balance_main : List String → Action (Process F H) (Unit {0})
  balance_main args = do
    pk ← lift (key_argument args)
    cfg ← testnet_config F H
    on_shell F H (show_balance pk cfg)

  unfoldable pub deposit_main : List String → Action (Process F H) (Unit {0})
  deposit_main args = do
    pk ← lift (key_argument args)
    cfg ← testnet_config F H
    on_shell F H (deposit_one pk cfg)
