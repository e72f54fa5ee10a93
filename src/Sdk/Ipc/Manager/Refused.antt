-- ===== src/Sdk/Ipc/Manager/Refused.antt =====
-- Amounts that `EvmManager` refuses.
use rust_recall.Base.{none, ◌≡◌, Result, IsFailure, arith}
use rust_recall.Base.Int.{ℤ}
use rust_recall.Fvm.{Fvm}
use rust_recall.Signer.Subnet.{SubnetId}
use rust_recall.Signer.Traits.{Signer}
use rust_recall.Sdk.Ipc.Evm.{Evm, Send}
use rust_recall.Sdk.Ipc.Manager.{EvmSubnet, to_u128, approve_gateway, fund, withdraw, deposit}

-- A call that fails and leaves the state as it was.
abbrev pub Refuses : {S A : Type 0} → S → Result A × S → Type 0
Refuses s (r, t) = IsFailure r × (t ≡ s)

module _ (F : Fvm) (E : Evm F) (send : Send E) {M : Type 0} (signer : Signer F M) (to : F.Address)
    (subnet : EvmSubnet F) (to_subnet : SubnetId F) (amount : ℤ) (s : E.N) where
  approve_gateway_refused :
      to_u128 amount ≡ none → Refuses s (approve_gateway F E send signer subnet amount s)
  unfolding approve_gateway
  approve_gateway_refused h = ground arith

  fund_refused :
      to_u128 amount ≡ none → Refuses s (fund F E send signer to subnet to_subnet amount s)
  unfolding fund
  fund_refused h = ground arith

  withdraw_refused : to_u128 amount ≡ none → Refuses s (withdraw F E send signer to subnet amount s)
  unfolding withdraw
  withdraw_refused h = ground arith

  -- An amount that is negative or does not fit 128 bits is refused by a deposit, by its two parts,
  -- and by a withdrawal, before anything is asked of the node or sent to it.
  pub unfundable_refused :
      to_u128 amount ≡ none
      → Refuses s (approve_gateway F E send signer subnet amount s)
        × Refuses s (fund F E send signer to subnet to_subnet amount s)
        × Refuses s (deposit F E send signer to subnet to_subnet amount s)
        × Refuses s (withdraw F E send signer to subnet amount s)
  unfolding deposit
  unfundable_refused h =
      let approval = approve_gateway_refused h in
      (approval, fund_refused h, ground arith, withdraw_refused h)
