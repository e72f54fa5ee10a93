-- ===== src/Signer/Traits.antt =====
-- signer/src/signer.rs: the trait `Signer`, with its provided method `eth_address`.
use rust_recall.Base.{ℕ, Option, Result}
use rust_recall.Base.Int.{ℤ}
use rust_recall.Base.Action.{Action}
use rust_recall.Fvm.{Bytes, Message, DeliverTx, Fvm}
use rust_recall.Provider.Message.{GasParams}
use rust_recall.Provider.Tx.{BroadcastMode, TxResult}
use rust_recall.Provider.Traits.{Provider}
use rust_recall.Provider.Util.{get_eth_address}
use rust_recall.Signer.Subnet.{SubnetId}
use rust_recall.Signer.World.{World}

pub record Signer (F : Fvm) (N : Type 0) : Type 1 where
  pub address : F.Address
  pub secret_key : Option F.SecretKey
  pub subnet_id : Option (SubnetId F)
  -- provider, to, value, method number, params, gas params, broadcast mode, decoder
  pub send_transaction :
      {T : Type 0}
      → Provider F N
      → F.Address
      → ℤ
      → ℕ
      → Bytes
      → GasParams
      → BroadcastMode
      → (DeliverTx → Result T)
      → Action (World N) (TxResult F T)
  pub sign_message : Message F.Address → Result F.SignedMessage
  pub verify_message : Message F.Address → F.Signature → Result (Unit {0})

-- `Signer::eth_address`
unfoldable pub eth_address : (F : Fvm) {N : Type 0} → Signer F N → Result Bytes
eth_address F signer = get_eth_address F signer.address
