-- ===== src/Cli/Tx.antt =====
-- How every command of cli/src that sends a transaction begins: a wallet of the private key, with
-- the sequence of `--sequence` or of the chain.
pub mod Sequence
use rust_recall.Base.{String, Option, none}
use rust_recall.Base.Action.{Action, ◌>>=◌, lift, pure}
use rust_recall.Fvm.{Fvm}
use rust_recall.Provider.Traits.{Provider}
use rust_recall.Provider.JsonRpc.{json_rpc_provider}
use rust_recall.Provider.JsonRpc.Connect.{new_http}
use rust_recall.Signer.World.{World}
use rust_recall.Signer.Subnet.{SubnetId, chain_id}
use rust_recall.Signer.Wallet.{Wallet, ethereum, new_wallet, set_sequence}
use rust_recall.Sdk.Network.{NetworkConfig}
use rust_recall.Cli.Shell.{Host, Shell}
use rust_recall.Cli.Options.{TxArgs, to_tx_params}

module _ (F : Fvm) where
  unfoldable pub tx_signer :
      {N : Type 0} → F.SecretKey → SubnetId F → TxArgs → Provider F N → Action (World N) (Wallet F)
  tx_signer private_key subnet_id args provider = do
    signer ← new_wallet F private_key ethereum subnet_id
    _ ← set_sequence F signer (to_tx_params args).sequence provider.queries
    pure signer

  module _ (H : Host F) where
    -- `JsonRpcProvider::new_http(cfg.rpc_url, cfg.subnet_id.chain_id(), None, object_api_url)`
    unfoldable pub connect :
        NetworkConfig F → Option String → Action (Shell F H) (Provider F H.client.Net)
    connect cfg object_api_url = do
      p ← lift (new_http H.connector cfg.rpc_url (chain_id F cfg.subnet_id) none object_api_url)
      pure (json_rpc_provider F H.client p)
