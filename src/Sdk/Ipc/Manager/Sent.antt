-- ===== src/Sdk/Ipc/Manager/Sent.antt =====
-- What `EvmManager` sends: the calls of a deposit, and the prices of a request.
use mathlib.Core.Path.{subst₂}
use rust_recall.Base.{
  ℕ, ◌+◌, ◌*◌, ◌^◌, ◌<◌, ◌≤◌, Option, none, some, List, [], ok, All, true, ok_or, Result, String,
  ◌≡◌, ◌≢◌, refl, arith,
}
use rust_recall.Base.Int.{ℤ}
use rust_recall.Base.Action.{Action, ◌>>=◌, >>=-eq-ok, lift->>=-eq-ok, lift-eq-ok, lift, pure}
use rust_recall.Fvm.{Bytes, Fvm}
use rust_recall.Signer.Subnet.{SubnetId}
use rust_recall.Signer.Traits.{Signer}
use rust_recall.Sdk.Ipc.Evm.{
  TxKind, legacy, eip2930, eip1559, Evm, Send, EvmCall, Request, approve, fund_with_token,
}
use rust_recall.Sdk.Ipc.Fees.{premium_estimation}
use rust_recall.Sdk.Ipc.Fees.Median.{Fits}
use rust_recall.Sdk.Ipc.Fees.Bounds.{premium_estimation-bounds}
use rust_recall.Sdk.Ipc.Manager.{
  EvmSubnet, to_u128, get_gateway, get_supply_source, approve_gateway, fund, deposit, client_send,
  new_call, set_fees, call_with_premium_and_pending_block,
}

ok_or-eq-ok : {A : Type 0} (o : Option A) (e : String) {a : A} → ok_or o e ≡ ok a → o ≡ some a
ok_or-eq-ok none e h = cc
ok_or-eq-ok (some x) e h = cc

module _ (F : Fvm) (E : Evm F) where
  -- The price that a request offers for gas, in the field of its kind
  abbrev pub offered : TxKind → Request E → Option ℕ
  offered eip1559 r = r.max_fee_per_gas
  offered legacy r = r.gas_price
  offered eip2930 r = r.gas_price

  -- The tip, which only one kind of transaction has
  abbrev pub tip : TxKind → ℕ → Option ℕ
  tip eip1559 fee = some fee
  tip _ fee = none

  set_fees-kind :
      (fee cap : ℕ) (c : EvmCall E) (kind : TxKind)
      → let r = record (set_fees F E (fee, cap) kind (new_call F E c)) {
        on_pending_block = true;
      } in
        (offered kind r ≡ some cap) × (r.max_priority_fee_per_gas ≡ tip kind fee) × (r.evm_call ≡ c)
  set_fees-kind fee cap c legacy = (refl, refl, refl)
  set_fees-kind fee cap c eip2930 = (refl, refl, refl)
  set_fees-kind fee cap c eip1559 = (refl, refl, refl)

  -- The request of a contract call with these fees
  abbrev priced : EvmCall E → ℕ × ℕ → Request E
  priced c fees = record (set_fees F E fees E.call_kind (new_call F E c)) {
    on_pending_block = true;
  }

  module _ (send : Send E) where
    -- A contract call that was sent once, and whose receipt has arrived: the state goes from `s` to
    -- `t` while the fees are estimated, to `u` when the request is sent, and then to `v`.
    pub record Sent (client : E.Http × E.LocalWallet) (c : EvmCall E) (s v : E.N)
        (receipt : E.Receipt) : Type 0 where
      pub request : Request E
      pub fee : ℕ
      pub cap : ℕ
      pub pending : E.Pending
      pub t : E.N
      pub u : E.N
      pub is_estimated : premium_estimation E.threshold (E.fees client) s ≡ (ok (fee, cap), t)
      pub is_sent : send client request t ≡ (ok pending, u)
      pub is_received : E.await_receipt pending (some 200) u ≡ (ok (some receipt), v)
      pub is_call : request.evm_call ≡ c
      pub on_pending : request.on_pending_block ≡ true
      pub offers : offered E.call_kind request ≡ some cap
      pub tips : request.max_priority_fee_per_gas ≡ tip E.call_kind fee

    abbrev no_receipt : String
    no_receipt = "txn sent to network, but receipt cannot be obtained, please check scanner"

    abbrev shown : Option E.Receipt → Result E.Receipt
    shown found = ok_or found no_receipt

    client_send-Sent :
        (client : E.Http × E.LocalWallet) (c : EvmCall E) (s v : E.N) (receipt : E.Receipt)
        → client_send F E send client c s ≡ (ok receipt, v)
        → Sent client c s v receipt
    unfolding client_send call_with_premium_and_pending_block
    client_send-Sent client c s v receipt h =
        let received : E.Pending → Action E.N E.Receipt =
          λ pending. E.await_receipt pending (some 200) >>= (λ found. lift (shown found)) in
        let estimated : Action E.N (Request E) =
          premium_estimation E.threshold (E.fees client) >>= (λ fees. pure (priced c fees)) in
        let (r, t, e, k) = >>=-eq-ok estimated (λ r. send client r >>= received) s h in
        let (fees, t', f, same) =
          >>=-eq-ok (premium_estimation E.threshold (E.fees client)) (λ fees. pure (priced c fees))
            s e in
        let (pending, u, sent, l) = >>=-eq-ok (send client r) received t k in
        let (found, v', g, m) =
          >>=-eq-ok (E.await_receipt pending (some 200)) (λ found. lift (shown found)) u l in
        let (shown_ok, last) = lift-eq-ok (shown found) v' m in
        let is_found : found ≡ some receipt = ok_or-eq-ok found no_receipt shown_ok in
        let (is_priced, start) = lift-eq-ok (ok (priced c fees)) t' same in
        let (o, tipped, called) = set_fees-kind fees.0 fees.1 c E.call_kind in
        record {
          request = priced c fees;
          fee = fees.0;
          cap = fees.1;
          pending = pending;
          t = t';
          u = u;
          is_estimated = f;
          is_sent = ground (arith, sent, is_priced, start);
          is_received = ground (arith, g, is_found, last);
          is_call = called;
          on_pending = refl;
          offers = o;
          tips = tipped;
        }

    -- Where the node reports a base fee below 2^250 and a history in which each block has a reward,
    -- and rewards fit a signed word, a contract call that returns a receipt was sent once, on the
    -- pending block, at a price that is at least the tip, at least the base fee, and at most the tip
    -- plus twice the base fee. The receipt is the one that arrived for it.
    pub client_send-bounds :
        (client : E.Http × E.LocalWallet) (c : EvmCall E) (s t u v : E.N) (receipt : E.Receipt)
        (base : ℕ) (blocks : List (List ℕ))
        → (E.fees client).latest_base_fee s ≡ (ok (some (some base)), t)
        → (E.fees client).fee_history t ≡ (ok blocks, u)
        → All (λ b. (b ≢ []) × All Fits b) blocks
        → base < 2 ^ 250
        → client_send F E send client c s ≡ (ok receipt, v)
        → (sent : Sent client c s v receipt) × (sent.fee ≤ sent.cap)
          × (base ≤ sent.cap)
          × (sent.cap ≤ sent.fee + 2 * base)
    client_send-bounds client c s t u v receipt base blocks e f h b k =
        let sent = client_send-Sent client c s v receipt k in
        let (fee, cap, g, over_fee, over_base, below) =
          premium_estimation-bounds E.threshold (E.fees client) s t u base blocks e f h b in
        let is_estimated = sent.is_estimated in
        let same : (sent.fee ≡ fee) × (sent.cap ≡ cap) = ground (arith, is_estimated, g) in
        let (same_fee, same_cap) = same in
        (
          sent,
          omega (arith, over_fee, same_fee, same_cap),
          omega (arith, over_base, same_cap),
          omega (arith, below, same_fee, same_cap),
        )

    -- The address of a contract and the client that calls it
    abbrev pub Client : Type 0
    Client = Bytes × (E.Http × E.LocalWallet)

    module _ {M : Type 0} (signer : Signer F M) where
      -- The two calls of a deposit, with what they are made of, and the state between them
      pub record Deposited (to : F.Address) (from_subnet : EvmSubnet F) (to_subnet : SubnetId F)
          (amount : ℤ) (s v : E.N) (receipt : E.Receipt) : Type 0 where
        pub gateway : Client
        pub source : Client
        pub value : ℕ
        pub subnet_id : E.GatewaySubnet
        pub receiver : E.FvmAddress
        pub approval : E.Receipt
        pub u : E.N
        pub is_gateway : get_gateway F E signer from_subnet ≡ ok gateway
        pub is_source : get_supply_source F E signer from_subnet ≡ ok source
        pub is_value : to_u128 amount ≡ some value
        pub is_subnet : E.gateway_subnet to_subnet.real ≡ ok subnet_id
        pub is_receiver : E.fvm_address to ≡ ok receiver
        pub is_approved : Sent source.1 (approve source.0 gateway.0 value) s u approval
        pub is_funded :
            Sent gateway.1 (fund_with_token gateway.0 subnet_id receiver value) u v receipt

      approve_gateway-Sent :
          (subnet : EvmSubnet F) (amount : ℤ) (s v : E.N) (receipt : E.Receipt)
          → approve_gateway F E send signer subnet amount s ≡ (ok receipt, v)
          → (gateway : Client) × (source : Client) × (value : ℕ) × (get_gateway F E signer subnet
              ≡ ok gateway)
            × (get_supply_source F E signer subnet ≡ ok source)
            × (to_u128 amount ≡ some value)
            × Sent source.1 (approve source.0 gateway.0 value) s v receipt
      unfolding approve_gateway
      approve_gateway-Sent subnet amount s v receipt h =
          let parsed = ok_or (to_u128 amount) "invalid value to fund" in
          let approved : Client → Client → ℕ → Action E.N E.Receipt = λ gateway source value.
            client_send F E send source.1 (approve source.0 gateway.0 value) in
          let from_source : Client → Client → Action E.N E.Receipt =
            λ gateway source. lift parsed >>= approved gateway source in
          let (gateway, e, k) =
            lift->>=-eq-ok (get_gateway F E signer subnet)
              (λ gateway. lift (get_supply_source F E signer subnet) >>= from_source gateway) s h in
          let (source, f, l) =
            lift->>=-eq-ok (get_supply_source F E signer subnet) (from_source gateway) s k in
          let (value, g, m) = lift->>=-eq-ok parsed (approved gateway source) s l in
          let call = approve source.0 gateway.0 value in
          (
            gateway,
            source,
            value,
            e,
            f,
            ok_or-eq-ok (to_u128 amount) "invalid value to fund" g,
            client_send-Sent source.1 call s v receipt m,
          )

      fund-Sent :
          (to : F.Address) (subnet : EvmSubnet F) (to_subnet : SubnetId F) (amount : ℤ) (s v : E.N)
          (receipt : E.Receipt)
          → fund F E send signer to subnet to_subnet amount s ≡ (ok receipt, v)
          → (gateway : Client) × (subnet_id : E.GatewaySubnet) × (value : ℕ)
            × (receiver : E.FvmAddress) × (get_gateway F E signer subnet ≡ ok gateway)
            × (E.gateway_subnet to_subnet.real ≡ ok subnet_id)
            × (to_u128 amount ≡ some value)
            × (E.fvm_address to ≡ ok receiver)
            × Sent gateway.1 (fund_with_token gateway.0 subnet_id receiver value) s v receipt
      unfolding fund
      fund-Sent to subnet to_subnet amount s v receipt h =
          let parsed = ok_or (to_u128 amount) "invalid value to fund" in
          let funded : Client → E.GatewaySubnet → ℕ → E.FvmAddress → Action E.N E.Receipt =
            λ gateway id value receiver.
              client_send F E send gateway.1 (fund_with_token gateway.0 id receiver value) in
          let to_receiver : Client → E.GatewaySubnet → ℕ → Action E.N E.Receipt =
            λ gateway id value. lift (E.fvm_address to) >>= funded gateway id value in
          let to_target : Client → E.GatewaySubnet → Action E.N E.Receipt =
            λ gateway id. lift parsed >>= to_receiver gateway id in
          let (gateway, e, k) =
            lift->>=-eq-ok (get_gateway F E signer subnet)
              (λ gateway. lift (E.gateway_subnet to_subnet.real) >>= to_target gateway) s h in
          let (subnet_id, f, l) =
            lift->>=-eq-ok (E.gateway_subnet to_subnet.real) (to_target gateway) s k in
          let (value, g, m) = lift->>=-eq-ok parsed (to_receiver gateway subnet_id) s l in
          let (receiver, i, n) =
            lift->>=-eq-ok (E.fvm_address to) (funded gateway subnet_id value) s m in
          let call = fund_with_token gateway.0 subnet_id receiver value in
          (
            gateway,
            subnet_id,
            value,
            receiver,
            e,
            f,
            ok_or-eq-ok (to_u128 amount) "invalid value to fund" g,
            i,
            client_send-Sent gateway.1 call s v receipt n,
          )

      -- A deposit that returns a receipt made two calls, one after the other, both with the same
      -- gateway and the same amount, which fits in 128 bits: the approval of the gateway at the
      -- supply source, whose receipt arrived before the fees of the second call were asked for, and
      -- the funding of the receiver in the target subnet, whose receipt it returns. Each was sent
      -- once, on the pending block, at the fees estimated for it.
      pub deposit-Deposited :
          (to : F.Address) (from_subnet : EvmSubnet F) (to_subnet : SubnetId F) (amount : ℤ)
          (s v : E.N) (receipt : E.Receipt)
          → deposit F E send signer to from_subnet to_subnet amount s ≡ (ok receipt, v)
          → Deposited to from_subnet to_subnet amount s v receipt
      unfolding deposit
      deposit-Deposited to from_subnet to_subnet amount s v receipt h =
          let (approval, u, e, k) =
            >>=-eq-ok (approve_gateway F E send signer from_subnet amount)
              (λ _. fund F E send signer to from_subnet to_subnet amount) s h in
          let (gateway, source, value, is_gateway, is_source, is_value, is_approved) =
            approve_gateway-Sent from_subnet amount s u approval e in
          let (again, subnet_id, same, receiver, f, is_subnet, g, is_receiver, is_funded) =
            fund-Sent to from_subnet to_subnet amount u v receipt k in
          let same_gateway : again ≡ gateway = ground (arith, f, is_gateway) in
          let same_value : same ≡ value = ground (arith, g, is_value) in
          record {
            gateway = gateway;
            source = source;
            value = value;
            subnet_id = subnet_id;
            receiver = receiver;
            approval = approval;
            u = u;
            is_gateway = is_gateway;
            is_source = is_source;
            is_value = is_value;
            is_subnet = is_subnet;
            is_receiver = is_receiver;
            is_approved = is_approved;
            is_funded =
                subst₂ (λ p n. Sent p.1 (fund_with_token p.0 subnet_id receiver n) u v receipt)
                  same_gateway same_value is_funded;
          }
