-- ===== src/Sdk/Ipc/Manager.antt =====
-- sdk/src/ipc/manager.rs: `EvmManager`, and what sdk/src/account.rs makes of it.
pub mod Refused
pub mod Sent
use rust_recall.Base.{
  ℕ, ◌^◌, String, true, false, Option, none, some, List, [], ◌∷◌, Result, ok, panic, ok_or, ltb,
  ◌>>=◌ as ◌>>=ʳ◌, if◌then◌else◌,
}
use rust_recall.Base.Int.{ℤ, pos, negsuc}
use rust_recall.Base.Action.{Action, ◌>>=◌, lift, pure}
use rust_recall.Fvm.{Bytes, Fvm}
use rust_recall.Signer.Subnet.{SubnetId, chain_id}
use rust_recall.Signer.Traits.{Signer}
use rust_recall.Sdk.Ipc.Evm.{
  Header, TxKind, legacy, eip2930, eip1559, Evm, EvmCall, approve, fund_with_token, release, pay,
  Request, Send,
}
use rust_recall.Sdk.Ipc.Fees.{premium_estimation}

pub record EvmSubnet (F : Fvm) : Type 0 where
  pub id : SubnetId F
  pub provider_http : String
  pub provider_timeout : Option ℕ
  pub auth_token : Option String
  pub registry_addr : F.Address
  pub gateway_addr : F.Address
  pub supply_source : Option F.Address

-- `atto().to_u128()`
abbrev pub to_u128 : ℤ → Option ℕ
to_u128 (pos n) = if ltb n (2 ^ 128) then some n else none
to_u128 (negsuc n) = none

-- `U256::as_u128`
abbrev pub as_u128 : ℕ → Result ℤ
as_u128 n = if ltb n (2 ^ 128) then ok (pos n) else panic "Integer overflow when casting to u128"

-- In seconds
abbrev pub eth_provider_polling_time : ℕ
eth_provider_polling_time = 1

abbrev pub receipt_retries : ℕ
receipt_retries = 200

module _ (F : Fvm) (E : Evm F) where
  -- The headers of every request: the token of the subnet, if it has one
  unfoldable pub auth_headers : Option String → Result (List (Header E.HeaderValue))
  auth_headers none = ok []
  auth_headers (some auth_token) = E.header_value (E.show_bearer auth_token) >>=ʳ λ auth_value.
      ok ((record { name = "authorization"; value = auth_value; is_sensitive = true }) ∷ [])

  unfoldable pub get_eth_provider : EvmSubnet F → Result E.Http
  unfolding auth_headers
  get_eth_provider subnet = auth_headers subnet.auth_token >>=ʳ λ headers.
      E.build_client (record { default_headers = headers; timeout = subnet.provider_timeout })
      >>=ʳ λ client. ok (E.new_provider subnet.provider_http client eth_provider_polling_time)

  module _ {M : Type 0} (signer : Signer F M) (subnet : EvmSubnet F) where
    unfoldable pub get_eth_signer : Result (E.Http × E.LocalWallet)
    get_eth_signer = get_eth_provider subnet >>=ʳ λ provider.
        ok_or signer.secret_key "failed to get secret key from signer" >>=ʳ λ secret_key.
        ok_or signer.subnet_id "failed to get subnet ID from signer" >>=ʳ λ subnet_id.
        E.local_wallet secret_key (chain_id F subnet_id) >>=ʳ λ wallet. ok (provider, wallet)

    -- The gateway contract: its address and the client
    unfoldable pub get_gateway : Result (Bytes × (E.Http × E.LocalWallet))
    get_gateway = E.evm_address subnet.gateway_addr >>=ʳ λ address.
        get_eth_signer >>=ʳ λ client. ok (address, client)

    -- The contract of the supply source
    unfoldable pub get_supply_source : Result (Bytes × (E.Http × E.LocalWallet))
    get_supply_source =
        ok_or subnet.supply_source "supply source is not configured for parent subnet" >>=ʳ λ addr.
        E.evm_address addr >>=ʳ λ address. get_eth_signer >>=ʳ λ client. ok (address, client)

  -- `EvmManager::balance`
  unfoldable pub evm_balance : F.Address → EvmSubnet F → Action E.N ℤ
  evm_balance address subnet = do
    provider ← lift (get_eth_provider subnet)
    account ← lift (E.evm_address address)
    balance ← E.get_balance provider account
    lift (as_u128 balance)

  -- `EvmManager::supply_source_balance`
  unfoldable pub supply_source_balance : F.Address → EvmSubnet F → Action E.N ℤ
  supply_source_balance address subnet = do
    provider ← lift (get_eth_provider subnet)
    addr ← lift (ok_or subnet.supply_source "supply source is not configured for subnet")
    contract ← lift (E.evm_address addr)
    account ← lift (E.evm_address address)
    balance ← E.balance_of provider contract account
    lift (as_u128 balance)

  abbrev pub new_call : EvmCall E → Request E
  new_call c = record {
    evm_call = c;
    kind = E.call_kind;
    gas_price = none;
    max_fee_per_gas = none;
    max_priority_fee_per_gas = none;
    on_pending_block = false;
  }

  -- The fees, in the fields of the kind of transaction
  abbrev pub set_fees : ℕ × ℕ → TxKind → Request E → Request E
  set_fees (fee, cap) eip1559 r = record r {
    max_fee_per_gas = some cap;
    max_priority_fee_per_gas = some fee;
  }
  set_fees (fee, cap) legacy r = record r { gas_price = some cap }
  set_fees (fee, cap) eip2930 r = record r { gas_price = some cap }

  unfoldable pub call_with_premium_and_pending_block :
      E.Http × E.LocalWallet → Request E → Action E.N (Request E)
  call_with_premium_and_pending_block client r = do
    fees ← premium_estimation E.threshold (E.fees client)
    pure (record (set_fees fees r.kind r) { on_pending_block = true })

  module _ (send : Send E) where
    unfoldable pub client_send : E.Http × E.LocalWallet → EvmCall E → Action E.N E.Receipt
    client_send client c = do
      r ← call_with_premium_and_pending_block client (new_call c)
      tx ← send client r
      receipt ← E.await_receipt tx (some receipt_retries)
      lift (
          ok_or receipt "txn sent to network, but receipt cannot be obtained, please check scanner")

    module _ {M : Type 0} (signer : Signer F M) where
      unfoldable pub approve_gateway : EvmSubnet F → ℤ → Action E.N E.Receipt
      approve_gateway subnet amount = do
        gateway ← lift (get_gateway signer subnet)
        source ← lift (get_supply_source signer subnet)
        value ← lift (ok_or (to_u128 amount) "invalid value to fund")
        client_send source.1 (approve source.0 gateway.0 value)

      -- `EvmManager::deposit`
      unfoldable pub fund : F.Address → EvmSubnet F → SubnetId F → ℤ → Action E.N E.Receipt
      fund to from_subnet to_subnet amount = do
        gateway ← lift (get_gateway signer from_subnet)
        subnet_id ← lift (E.gateway_subnet to_subnet.real)
        value ← lift (ok_or (to_u128 amount) "invalid value to fund")
        receiver ← lift (E.fvm_address to)
        client_send gateway.1 (fund_with_token gateway.0 subnet_id receiver value)

      unfoldable pub withdraw : F.Address → EvmSubnet F → ℤ → Action E.N E.Receipt
      withdraw to subnet amount = do
        gateway ← lift (get_gateway signer subnet)
        value ← lift (ok_or (to_u128 amount) "invalid value to fund")
        receiver ← lift (E.fvm_address to)
        client_send gateway.1 (release gateway.0 receiver value)

      unfoldable pub transfer : F.Address → EvmSubnet F → ℤ → Action E.N E.Receipt
      transfer to subnet amount = do
        client ← lift (get_eth_signer signer subnet)
        fees ← premium_estimation E.threshold (E.fees client)
        receiver ← lift (E.evm_address to)
        value ← lift (E.eth_amount amount)
        tx ←
            send client
              (set_fees fees eip1559 (record (new_call (pay receiver value)) { kind = eip1559 }))
        receipt ← E.await_receipt tx none
        lift (ok_or receipt "transfer did not return receipt")

      -- `Account::deposit`
      unfoldable pub deposit : F.Address → EvmSubnet F → SubnetId F → ℤ → Action E.N E.Receipt
      deposit to from_subnet to_subnet amount = do
        _ ← approve_gateway from_subnet amount
        fund to from_subnet to_subnet amount
