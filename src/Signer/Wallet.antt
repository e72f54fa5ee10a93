-- ===== src/Signer/Wallet.antt =====
-- signer/src/wallet.rs: a signer with a secret key, which counts its transactions.
pub mod Broadcasts
pub mod Sequence
pub mod Estimate
pub mod Schedule
use rust_recall.Base.{
  ℕ, ◌+◌, ◌%◌, String, ◌<>◌, Option, none, some, Result, ok, if◌then◌else◌, ◌==◌,
}
use rust_recall.Base.Int.{ℤ}
use rust_recall.Base.Action.{Action, ◌>>=◌, lift, pure, fail}
use rust_recall.Base.Text.{u64_mod}
use rust_recall.Fvm.{Bytes, Message, DeliverTx, ActorState, signed, committed, pending, Fvm}
use rust_recall.Provider.Message.{GasParams, set_limits}
use rust_recall.Provider.Tx.{BroadcastMode, TxResult}
use rust_recall.Provider.Traits.{QueryProvider, Provider}
use rust_recall.Provider.Query.{estimate_gas_limit, get_actor_state}
use rust_recall.Signer.Subnet.{SubnetId, chain_id}
use rust_recall.Signer.World.{World, on_net, new_cell, read_cell, write_cell}
use rust_recall.Signer.Traits.{Signer}

pub data AccountKind : Type 0 where
  regular ethereum : AccountKind

module _ (F : Fvm) where
  pub record Wallet : Type 0 where
    pub addr : F.Address
    pub sk : F.SecretKey
    pub subnet_id : SubnetId F
    -- the cell of the sequence
    pub sequence : ℕ

  unfoldable pub derive_address : F.SecretKey → AccountKind → Result F.Address
  derive_address sk regular = F.secp256k1_address (F.public_key sk)
  derive_address sk ethereum = F.eth_address_of_key (F.public_key sk)

  -- The message of a transaction; its sequence is set later.
  unfoldable pub new_message : Wallet → F.Address → ℤ → ℕ → Bytes → GasParams → Message F.Address
  new_message wallet to value method_num params gas = record {
    version = 0;
    from = wallet.addr;
    to = to;
    sequence = 0;
    value = value;
    method_num = method_num;
    params = params;
    gas_limit = gas.gas_limit;
    gas_fee_cap = gas.gas_fee_cap;
    gas_premium = gas.gas_premium;
  }

  unfoldable pub sign_message : Wallet → Message F.Address → Result F.SignedMessage
  sign_message wallet message = F.new_secp256k1 message wallet.sk (chain_id F wallet.subnet_id)

  unfoldable pub verify_message : Wallet → Message F.Address → F.Signature → Result (Unit {0})
  verify_message wallet message signature =
      F.verify_signature message signature (chain_id F wallet.subnet_id)

  module _ {N : Type 0} where
    -- `Wallet::new_secp256k1`
    unfoldable pub new_wallet : F.SecretKey → AccountKind → SubnetId F → Action (World N) Wallet
    unfolding derive_address new_cell
    new_wallet sk kind subnet_id = do
      addr ← lift (derive_address sk kind)
      sequence ← new_cell 0
      pure (record { addr = addr; sk = sk; subnet_id = subnet_id; sequence = sequence })

    -- The sequence that the chain knows is kept, if it knows the account.
    unfoldable store_sequence : Wallet → Option (ℕ × ActorState) → Action (World N) (Unit {0})
    unfolding write_cell
    store_sequence wallet (some (id, state)) = write_cell wallet.sequence state.sequence
    store_sequence wallet none =
        fail ("failed to init sequence; actor " <> F.show_address wallet.addr <> " cannot be found")

    -- `Wallet::init_sequence`
    unfoldable pub init_sequence : Wallet → QueryProvider F N → Action (World N) (Unit {0})
    unfolding store_sequence
    init_sequence wallet provider = do
      res ← on_net (get_actor_state F provider wallet.addr pending)
      store_sequence wallet res.value

    -- `Wallet::set_sequence`
    unfoldable pub set_sequence :
        Wallet → Option ℕ → QueryProvider F N → Action (World N) (Unit {0})
    unfolding init_sequence write_cell
    set_sequence wallet (some sequence) provider = write_cell wallet.sequence sequence
    set_sequence wallet none provider = init_sequence wallet provider

    -- The gas limit is estimated if the message has none.
    unfoldable pub with_gas_limit :
        QueryProvider F N → Message F.Address → Action (World N) (Message F.Address)
    with_gas_limit provider message =
        if message.gas_limit == 0
        then on_net (estimate_gas_limit F provider message committed)
          >>= (λ gas_limit. pure (record message { gas_limit = gas_limit }))
        else pure message

    -- The current sequence, and its increment, which wraps at 64 bits.
    unfoldable pub take_sequence : Wallet → Action (World N) ℕ
    unfolding write_cell
    take_sequence wallet = do
      sequence ← read_cell wallet.sequence
      _ ← write_cell wallet.sequence ((sequence + 1) % u64_mod)
      pure sequence

    -- The message with the sequence that it is signed with
    unfoldable pub number_message :
        Wallet → Message F.Address → Action (World N) (Message F.Address)
    unfolding take_sequence
    number_message wallet message = do
      sequence ← take_sequence wallet
      pure (record message { sequence = sequence })

    module _ {T : Type 0} (provider : Provider F N) (mode : BroadcastMode) where
      -- The lock on the sequence is held until the broadcast has returned.
      unfoldable pub sign_and_perform :
          (DeliverTx → Result T) → Wallet → Message F.Address → Action (World N) (TxResult F T)
      unfolding number_message sign_message
      sign_and_perform decode wallet message = do
        numbered ← number_message wallet message
        message_signed ← lift (sign_message wallet numbered)
        on_net (provider.perform (signed message_signed) mode decode)

      -- `Signer::send_transaction`
      unfoldable pub send_transaction :
          (DeliverTx → Result T)
          → Wallet
          → F.Address
          → ℤ
          → ℕ
          → Bytes
          → GasParams
          → Action (World N) (TxResult F T)
      send_transaction decode wallet to value method_num params gas = do
        message ←
            with_gas_limit provider.queries
              (new_message wallet to value method_num params (set_limits gas))
        sign_and_perform decode wallet message

    -- `impl Signer for Wallet`
    unfoldable pub wallet_signer : Wallet → Signer F N
    wallet_signer wallet = record {
      address = wallet.addr;
      secret_key = some wallet.sk;
      subnet_id = some wallet.subnet_id;
      send_transaction = λ provider to value method_num params gas mode decode.
          send_transaction provider mode decode wallet to value method_num params gas;
      sign_message = sign_message wallet;
      verify_message = verify_message wallet;
    }
