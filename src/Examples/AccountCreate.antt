-- ===== src/Examples/AccountCreate.antt =====
-- sdk/examples/account_create.rs
use rust_recall.Base.{◌<>◌}
use rust_recall.Base.Action.{Action, ◌>>=◌, lift}
use rust_recall.Fvm.{Fvm}
use rust_recall.Sdk.Network.{testnet, init}
use rust_recall.Cli.Shell.{Host, Shell}
use rust_recall.Cli.Account.Run.{random_key}
use rust_recall.Examples.Process.{Crates, Process, println, on_network, on_shell}

module _ (F : Fvm) (H : Host F) (X : Crates F H) where
  unfoldable pub create_account : Action (Shell F H) (Unit {0})
  create_account = do
    sk ← random_key F H
    eth_address ← lift (X.eth_address_of_key (F.public_key sk))
    let address = X.address_of_eth eth_address
    let sk_hex = H.keys.hex_encode (H.keys.key_bytes sk)
    _ ← println F H ("Private key: " <> sk_hex)
    _ ← println F H ("Address: " <> H.codecs.show_eth_address eth_address)
    println F H ("FVM address: " <> F.show_address address)

  unfoldable pub main : Action (Process F H) (Unit {0})
  main = do _ ← on_network F H (init testnet); on_shell F H create_account
