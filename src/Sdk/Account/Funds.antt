-- ===== src/Sdk/Account/Funds.antt =====
-- sdk/src/account.rs: the balances of an account and the movement of its funds, through the EVM.
use rust_recall.Base.Int.{ℤ}
use rust_recall.Base.Action.{Action}
use rust_recall.Fvm.{Fvm}
use rust_recall.Signer.Subnet.{SubnetId}
use rust_recall.Signer.Traits.{Signer}
use rust_recall.Sdk.Ipc.Evm.{Evm, Send}
use rust_recall.Sdk.Ipc.Manager as Manager
use rust_recall.Sdk.Ipc.Manager.{EvmSubnet}

module _ (F : Fvm) (E : Evm F) where
  module _ {M : Type 0} (signer : Signer F M) where
    -- `Account::balance`
    abbrev pub balance : EvmSubnet F → Action E.N ℤ
    balance subnet = Manager.evm_balance F E signer.address subnet

    abbrev pub supply_source_balance : EvmSubnet F → Action E.N ℤ
    supply_source_balance subnet = Manager.supply_source_balance F E signer.address subnet

  module _ (send : Send E) {M : Type 0} (signer : Signer F M) where
    -- `Account::deposit`
    abbrev pub deposit : F.Address → EvmSubnet F → SubnetId F → ℤ → Action E.N E.Receipt
    deposit to from_subnet to_subnet amount =
        Manager.deposit F E send signer to from_subnet to_subnet amount

    abbrev pub withdraw : F.Address → EvmSubnet F → ℤ → Action E.N E.Receipt
    withdraw to subnet amount = Manager.withdraw F E send signer to subnet amount

    abbrev pub transfer : F.Address → EvmSubnet F → ℤ → Action E.N E.Receipt
    transfer to subnet amount = Manager.transfer F E send signer to subnet amount
