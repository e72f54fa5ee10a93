-- ===== src/Cli/Account/Create.antt =====
-- What `account create` prints, as later commands read it.
use mathlib.Core.Path.{subst}
use package.text.Mathlib.TextLemmas.{nil-append, append-nil}
use rust_recall.Base.{
  ◌∙◌, ◌<>◌, ℕ, zero, suc, String, [], ◌∷◌, ◌++◌, ok, ◌≡◌, refl, inl, inr, Result-cases, arith,
}
use rust_recall.Base.Action.{lift, >>=-eq-ok, lift-eq-ok}
use rust_recall.Fvm.{Bytes, Fvm}
use rust_recall.Provider.Util.{get_eth_address}
use rust_recall.Signer.Key.{random_secretkey, parse_secret_key}
use rust_recall.Signer.Key.RoundTrip.{IsKeys, parse_secret_key-hex_encode}
use rust_recall.Signer.Subnet.{SubnetId}
use rust_recall.Signer.World.{World, new_cell}
use rust_recall.Signer.Wallet.{Wallet, ethereum, new_wallet, derive_address}
use rust_recall.Cli.Json.{Json, text, eth_address, json_object, insert_field}
use rust_recall.Cli.Shell.{Host, Shell, line, print_json, write}
use rust_recall.Cli.Account.Run.{random_key, with_fvm_address, run_create}

module _ (F : Fvm) (H : Host F) where
  print_json-eq-ok :
      (j : Json F H.evm.Receipt) (s t : Shell F H)
      → print_json F H j s ≡ (ok tt, t)
      → (l : String) × (H.to_string_pretty j ≡ ok l) × (t.printed ≡ s.printed ++ line l ∷ [])
  unfolding print_json write
  print_json-eq-ok j s t h =
      let (l, u, e, k) =
        >>=-eq-ok (lift (H.to_string_pretty j)) (λ json. write F H (line json)) s h in
      let (e', same) = lift-eq-ok (H.to_string_pretty j) s e in (l, e', ground arith)

  parse_bare :
      IsKeys F H.keys
      → (sk : F.SecretKey)
      → parse_secret_key F H.keys (H.keys.hex_encode (H.keys.key_bytes sk)) ≡ ok sk
  parse_bare L sk =
      let hex = H.keys.hex_encode (H.keys.key_bytes sk) in
      subst (λ x. parse_secret_key F H.keys x ≡ ok sk) (nil-append (hex <> "") ∙ append-nil hex)
        (parse_secret_key-hex_encode F H.keys L sk "" "" tt tt).0

  -- The wallet of a key whose address is derived
  abbrev wallet_at : F.SecretKey → F.Address → SubnetId F → World H.client.Net → Wallet F
  wallet_at sk address id w = record { addr = address; sk = sk; subnet_id = id; sequence = w.next }

  new_wallet-derived :
      (sk : F.SecretKey) (address : F.Address) (id : SubnetId F) (w : World H.client.Net)
      → F.eth_address_of_key (F.public_key sk) ≡ ok address
      → (new_wallet F sk ethereum id w).0 ≡ ok (wallet_at sk address id w)
  unfolding new_wallet derive_address new_cell
  new_wallet-derived sk address id w e = ground arith

  abbrev new_key : Shell F H → F.SecretKey
  new_key s = (random_secretkey F H.keys s.rng).0

  abbrev key_taken : Shell F H → Shell F H
  key_taken s = record s { rng = (random_secretkey F H.keys s.rng).1 }

  -- What is printed of a key and its address: the FVM address only if the command is verbose
  abbrev pub account_json : ℕ → F.SecretKey → F.Address → Bytes → Json F H.evm.Receipt
  account_json zero sk address eth = json_object (
      ("private_key", text (H.keys.hex_encode (H.keys.key_bytes sk)))
      ∷ ("address", eth_address eth)
      ∷ [])
  account_json (suc n) sk address eth = json_object (
      ("private_key", text (H.keys.hex_encode (H.keys.key_bytes sk)))
      ∷ ("address", eth_address eth)
      ∷ ("fvm_address", text (F.show_address address))
      ∷ [])

  with_fvm_address-account_json :
      (verbosity : ℕ) (sk : F.SecretKey) (address : F.Address) (eth : Bytes)
      → with_fvm_address F H verbosity address (account_json 0 sk address eth)
        ≡ account_json verbosity sk address eth
  unfolding with_fvm_address insert_field
  with_fvm_address-account_json zero sk address eth = refl
  with_fvm_address-account_json (suc n) sk address eth = ground arith

  run_create-eq-ok :
      (verbosity : ℕ) (s t : Shell F H)
      → run_create F H verbosity s ≡ (ok tt, t)
      → (address : F.Address) × (eth : Bytes) × (F.eth_address_of_key (F.public_key (new_key s))
          ≡ ok address)
        × (get_eth_address F address ≡ ok eth)
        × (print_json F H (account_json verbosity (new_key s) address eth) (key_taken s)
            ≡ (ok tt, t))
  unfolding run_create random_key with_fvm_address
  run_create-eq-ok verbosity s t h =
      elim (Result-cases (F.eth_address_of_key (F.public_key (new_key s)))) [
        | inl (address, e) ↦ elim (Result-cases (get_eth_address F address)) [
          | inl (eth, f) ↦
              let sk = new_key s in
              let printed : print_json F H
                    (with_fvm_address F H verbosity address (account_json 0 sk address eth))
                    (key_taken s)
                  ≡ (ok tt, t) =
                ground arith in
              (
                address,
                eth,
                e,
                f,
                subst (λ j. print_json F H j (key_taken s) ≡ (ok tt, t))
                    (with_fvm_address-account_json verbosity sk address eth) printed,
              )
          | inr (inl (x, f)) ↦ absurd (ground arith)
          | inr (inr (x, f)) ↦ absurd (ground arith)
        ]
        | inr (inl (x, e)) ↦ absurd (ground arith)
        | inr (inr (x, e)) ↦ absurd (ground arith)
      ]

  -- `account create` that succeeds has printed one JSON value, with a private key, the Ethereum address
  -- of a wallet and, exactly if the command is verbose, the FVM address of it: the text of the key is
  -- read back as the key, and the wallet that any command makes of it, for any subnet, has the printed
  -- addresses. The hexadecimal codec writes and reads keys as documented.
  pub run_create-new_wallet :
      (L : IsKeys F H.keys) (verbosity : ℕ) (s t : Shell F H) (id : SubnetId F)
      (w : World H.client.Net)
      → run_create F H verbosity s ≡ (ok tt, t)
      → (wallet : Wallet F) × (eth : Bytes) × (l : String) × (H.to_string_pretty
            (account_json verbosity wallet.sk wallet.addr eth)
          ≡ ok l)
        × (t.printed ≡ s.printed ++ line l ∷ [])
        × (parse_secret_key F H.keys (H.keys.hex_encode (H.keys.key_bytes wallet.sk))
            ≡ ok wallet.sk)
        × ((new_wallet F wallet.sk ethereum id w).0 ≡ ok wallet)
        × (get_eth_address F wallet.addr ≡ ok eth)
  run_create-new_wallet L verbosity s t id w h =
      let (address, eth, e, f, k) = run_create-eq-ok verbosity s t h in
      let (l, p, q) = print_json-eq-ok _ (key_taken s) t k in
      (
        wallet_at (new_key s) address id w,
        eth,
        l,
        p,
        q,
        parse_bare L (new_key s),
        new_wallet-derived (new_key s) address id w e,
        f,
      )
