-- ===== src/Cli/Tx/Sequence.antt =====
-- Which transaction a command signs, and where its sequence comes from.
use rust_recall.Base.{
  ap, unwrap_or, ◌≢◌, ◌+◌, ◌%◌, ℕ, ◌<>◌, none, some, Result, ok, err, ◌≡◌, arith,
}
use rust_recall.Base.Int.{ℤ}
use rust_recall.Base.Text.{u64_mod}
use rust_recall.Base.Action.{Action, ◌>>=◌}
use rust_recall.Actors.{Method, Params}
use rust_recall.Fvm.{Bytes, Message, DeliverTx, pending, ActorState, Fvm}
use rust_recall.Provider.Message.{set_limits}
use rust_recall.Provider.Tx.{TxResult}
use rust_recall.Provider.Traits.{Provider}
use rust_recall.Provider.Query.{QueryResponse, get_actor_state}
use rust_recall.Signer.World.{World, new_cell, write_cell}
use rust_recall.Signer.Subnet.{SubnetId}
use rust_recall.Signer.Wallet.{
  Wallet, derive_address, new_wallet, set_sequence, init_sequence, new_message, wallet_signer,
}
use rust_recall.Sdk.Call.{transact}
use rust_recall.Cli.Options.{TxArgs, to_tx_params, BroadcastMode, tx_options}
use rust_recall.Signer.Wallet.Sequence.{send_transaction-perform}
use rust_recall.Signer.Subnet.{chain_id}
use rust_recall.Signer.Wallet.{sign_message}
use rust_recall.Fvm.{signed}
use rust_recall.Cli.Options.{get_mode}
use rust_recall.Cli.Tx.{tx_signer}

module _ (F : Fvm) {N : Type 0} (P : Provider F N) (sk : F.SecretKey) (id : SubnetId F)
    (args : TxArgs) where
  abbrev wallet_of : F.Address → World N → Wallet F
  wallet_of addr w = record { addr = addr; sk = sk; subnet_id = id; sequence = w.next }

  tx_signer_given :
      (w : World N) (n : ℕ) {addr : F.Address}
      → args.sequence ≡ some n
      → F.eth_address_of_key (F.public_key sk) ≡ ok addr
      → let done = tx_signer F sk id args P w in
        (done.0 ≡ ok (wallet_of addr w)) × (done.1.net ≡ w.net) × (done.1.cells w.next ≡ n)
  unfolding tx_signer new_wallet derive_address set_sequence to_tx_params new_cell write_cell
  tx_signer_given w n s e = ground arith

  -- A chain that does not know the account
  tx_signer_unknown :
      (w : World N) {addr : F.Address} {r : QueryResponse _} {n : N}
      → args.sequence ≡ none
      → F.eth_address_of_key (F.public_key sk) ≡ ok addr
      → get_actor_state F P.queries addr pending w.net ≡ (ok r, n)
      → r.value ≡ none
      → let done = tx_signer F sk id args P w in
        (done.0
          ≡ err ("failed to init sequence; actor " <> F.show_address addr <> " cannot be found"))
        × (done.1.net ≡ n)
  unfolding tx_signer new_wallet derive_address set_sequence init_sequence to_tx_params new_cell
  tx_signer_unknown w s e q none_found = ground arith

  -- A chain that knows the account
  tx_signer_known :
      (w : World N) {addr : F.Address} {r : QueryResponse _} {n : N} {i : ℕ} {state : ActorState}
      → args.sequence ≡ none
      → F.eth_address_of_key (F.public_key sk) ≡ ok addr
      → get_actor_state F P.queries addr pending w.net ≡ (ok r, n)
      → r.value ≡ some (i, state)
      → let done = tx_signer F sk id args P w in
        (done.0 ≡ ok (wallet_of addr w)) × (done.1.net ≡ n) × (done.1.cells w.next ≡ state.sequence)
  unfolding tx_signer new_wallet derive_address set_sequence init_sequence to_tx_params new_cell
      write_cell
  tx_signer_known w s e q found = ground arith

  module _ {T : Type 0} (to : F.Address) (value : ℤ) (method : Method)
      (params : F.Address → Params F.Address) (mode : BroadcastMode)
      (decode : DeliverTx → Result T) where
    -- A transaction of the command line: a wallet of the key, and one call of the sdk, whose
    -- parameters may name the wallet's address
    abbrev pub send_command : Action (World N) (TxResult F T)
    send_command = tx_signer F sk id args P >>= (λ signer.
        transact F P (wallet_signer F signer) to value method (params signer.addr)
          (tx_options mode args) decode)

    -- The message that is signed with the sequence `n`
    abbrev pub command_message : F.Address → Bytes → ℕ → World N → Message F.Address
    command_message addr bytes n w =
        record (new_message F (wallet_of addr w) to value (F.method_number method) bytes
          (set_limits (to_tx_params args).gas_params)) { sequence = n }

    send_command-perform :
        (w v : World N) {addr : F.Address} {bytes : Bytes} {m : F.SignedMessage}
        → tx_signer F sk id args P w ≡ (ok (wallet_of addr w), v)
        → F.serialize (params addr) ≡ ok bytes
        → unwrap_or args.gas_limit 0 ≢ 0
        → F.new_secp256k1 (command_message addr bytes (v.cells w.next) w) sk (chain_id F id) ≡ ok m
        → let sent = send_command w in
          let performed = P.perform (signed m) (get_mode mode) decode v.net in
          (sent.0 ≡ performed.0)
          × (sent.1.net ≡ performed.1)
          × (sent.1.cells w.next ≡ (v.cells w.next + 1) % u64_mod)
    unfolding transact wallet_signer to_tx_params sign_message
    send_command-perform w v {addr} {bytes} h s g e =
        let (r, n, c) =
          send_transaction-perform F P (get_mode mode) decode (wallet_of addr w) to value
            (F.method_number method) bytes (to_tx_params args).gas_params v _ g e in
        ground (arith, r, n, c.counted)

    -- A command with `--sequence` and a gas limit of its own signs one message: from the Ethereum
    -- address of the key, with the given sequence, the given gas limit and gas prices of at least
    -- the minimum. What is signed is all that the provider is given, nothing is asked of the chain
    -- before, and the wallet's sequence then stands at the next number. The key has an address, and
    -- the parameters and the message can be encoded and signed.
    pub send_command_given :
        (w : World N) (n : ℕ) {addr : F.Address} {bytes : Bytes} {m : F.SignedMessage}
        → args.sequence ≡ some n
        → F.eth_address_of_key (F.public_key sk) ≡ ok addr
        → F.serialize (params addr) ≡ ok bytes
        → unwrap_or args.gas_limit 0 ≢ 0
        → F.new_secp256k1 (command_message addr bytes n w) sk (chain_id F id) ≡ ok m
        → let sent = send_command w in
          let performed = P.perform (signed m) (get_mode mode) decode w.net in
          (sent.0 ≡ performed.0)
          × (sent.1.net ≡ performed.1)
          × (sent.1.cells w.next ≡ (n + 1) % u64_mod)
    send_command_given w n {addr} {bytes} {m} s e b g k =
        let (r, net, c) = tx_signer_given w n s e in
        let done = tx_signer F sk id args P w in
        let (performed, after, counted) =
          send_command-perform w done.1 {addr = addr} {bytes = bytes} {m = m}
            (ap (λ x. (x, done.1)) r) b g (rw c k) in
        ground (arith, net, c, performed, after, counted)

    -- A command without `--sequence`, and with a gas limit of its own, signs with the sequence that
    -- the chain gives the account of the key, pending transactions included, and gives the provider
    -- what is signed; the wallet's sequence then stands at the next number. The key has an address,
    -- and the parameters and the message can be encoded and signed.
    pub send_command_pending :
        (w : World N) {addr : F.Address} {r : QueryResponse _} {n : N} {i : ℕ} {state : ActorState}
        {bytes : Bytes} {m : F.SignedMessage}
        → args.sequence ≡ none
        → F.eth_address_of_key (F.public_key sk) ≡ ok addr
        → get_actor_state F P.queries addr pending w.net ≡ (ok r, n)
        → r.value ≡ some (i, state)
        → F.serialize (params addr) ≡ ok bytes
        → unwrap_or args.gas_limit 0 ≢ 0
        → F.new_secp256k1 (command_message addr bytes state.sequence w) sk (chain_id F id) ≡ ok m
        → let sent = send_command w in
          let performed = P.perform (signed m) (get_mode mode) decode n in
          (sent.0 ≡ performed.0)
          × (sent.1.net ≡ performed.1)
          × (sent.1.cells w.next ≡ (state.sequence + 1) % u64_mod)
    send_command_pending w {addr} {bytes = bytes} {m = m} s e q found b g k =
        let (r, net, c) = tx_signer_known w s e q found in
        let done = tx_signer F sk id args P w in
        let (performed, after, counted) =
          send_command-perform w done.1 {addr = addr} {bytes = bytes} {m = m}
            (ap (λ x. (x, done.1)) r) b g (rw c k) in
        ground (arith, net, c, performed, after, counted)

    -- A command without `--sequence`, of an account that the chain does not know, is an error that
    -- names the account; nothing is estimated, signed or broadcast: the network is left as the query
    -- of the account left it.
    pub send_command_unknown :
        (w : World N) {addr : F.Address} {r : QueryResponse _} {n : N}
        → args.sequence ≡ none
        → F.eth_address_of_key (F.public_key sk) ≡ ok addr
        → get_actor_state F P.queries addr pending w.net ≡ (ok r, n)
        → r.value ≡ none
        → let sent = send_command w in
          (sent.0
            ≡ err ("failed to init sequence; actor " <> F.show_address addr <> " cannot be found"))
          × (sent.1.net ≡ n)
    send_command_unknown w s e q none_found =
        let (r, net) = tx_signer_unknown w s e q none_found in ground (arith, r, net)
