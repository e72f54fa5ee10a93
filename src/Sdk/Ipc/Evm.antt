-- ===== src/Sdk/Ipc/Evm.antt =====
-- What sdk/src/ipc/manager.rs calls of `ethers` and the contract bindings: the client and its
-- wallet, the calls of the contracts, and conversions of addresses and amounts.
use rust_recall.Base.{ℕ, String, Bool, List, Option, Result}
use rust_recall.Base.Int.{ℤ}
use rust_recall.Base.Action.{Action}
use rust_recall.Fvm.{Bytes, Fvm}
use rust_recall.Sdk.Ipc.Fees.{EthClient}

-- `TypedTransaction`
pub data TxKind : Type 0 where
  legacy eip2930 eip1559 : TxKind

-- A value of a header; a sensitive one is not shown by debugging output.
pub record Header (Value : Type 0) : Type 0 where
  pub name : String
  pub value : Value
  pub is_sensitive : Bool

-- `reqwest::ClientBuilder`, as far as it is set
pub record ClientBuilder (Value : Type 0) : Type 0 where
  pub default_headers : List (Header Value)
  pub timeout : Option ℕ

pub record Evm (F : Fvm) : Type 1 where
  pub N : Type 0
  -- the display of `Authorization::Bearer`, and `HeaderValue::from_str`
  pub show_bearer : String → String
  pub HeaderValue : Type 0
  pub header_value : String → Result HeaderValue
  -- `build` of a client, with its default headers and its timeout in seconds
  pub HttpClient : Type 0
  pub build_client : ClientBuilder HeaderValue → Result HttpClient
  -- a provider of a URL and a client, with its polling interval in seconds
  pub Http : Type 0
  pub new_provider : String → HttpClient → ℕ → Http
  pub LocalWallet : Type 0
  -- `LocalWallet::from_bytes`, and `with_chain_id`
  pub local_wallet : F.SecretKey → ℕ → Result LocalWallet
  -- `payload_to_evm_address`, `fil_to_eth_amount`, `GatewaySubnetID::try_from`,
  -- `FvmAddress::try_from`
  pub evm_address : F.Address → Result Bytes
  pub eth_amount : ℤ → Result ℕ
  pub GatewaySubnet : Type 0
  pub gateway_subnet : F.SubnetPath → Result GatewaySubnet
  pub FvmAddress : Type 0
  pub fvm_address : F.Address → Result FvmAddress
  -- the kind of transaction that a contract call starts as
  pub call_kind : TxKind
  pub fees : Http × LocalWallet → EthClient N
  pub get_balance : Http → Bytes → Action N ℕ
  -- contract, account
  pub balance_of : Http → Bytes → Bytes → Action N ℕ
  pub Pending : Type 0
  pub Receipt : Type 0
  -- waits for the receipt, with a number of retries if one is given
  pub await_receipt : Pending → Option ℕ → Action N (Option Receipt)
  -- `EIP1559_FEE_ESTIMATION_THRESHOLD_MAX_CHANGE`
  pub threshold : ℤ

module _ {F : Fvm} (E : Evm F) where
  pub data EvmCall : Type 0 where
    -- the contract, the spender and the amount
    approve : Bytes → Bytes → ℕ → EvmCall
    -- the gateway, the subnet, the receiver and the amount
    fund_with_token : Bytes → E.GatewaySubnet → E.FvmAddress → ℕ → EvmCall
    -- the gateway, the receiver, and the value of the transaction
    release : Bytes → E.FvmAddress → ℕ → EvmCall
    -- the receiver and the value
    pay : Bytes → ℕ → EvmCall

  pub record Request : Type 0 where
    pub evm_call : EvmCall
    pub kind : TxKind
    pub gas_price : Option ℕ
    pub max_fee_per_gas : Option ℕ
    pub max_priority_fee_per_gas : Option ℕ
    -- the block is `Pending`
    pub on_pending_block : Bool

  -- `send` of a call, and `send_transaction`
  abbrev pub Send : Type 0
  Send = E.Http × E.LocalWallet → Request → Action E.N E.Pending
