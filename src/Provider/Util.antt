-- ===== src/Provider/Util.antt =====
-- provider/src/util.rs: the parsers of command-line values.
pub mod Amounts
pub mod Laws
use Prim.Native.String.{[] as nil, ◌∷◌ as cons}
use rust_recall.Base.{
  ℕ, zero, suc, String, ◌<>◌, List, [], ◌∷◌, Option, none, some, Result, ok, err, panic, map_ok,
  ◌>>=◌, if◌then◌else◌, length, leb,
}
use rust_recall.Base.Text.{str_eq, lower_eq, parse_u64, split_once, is_empty}
use rust_recall.Fvm.{
  Bytes, Payload, id, delegated, other, FvmNetwork, unknown_network, invalid, parsed, failed,
  FvmQueryHeight, committed, pending, height, Fvm,
}

abbrev take : ℕ → Bytes → Bytes
take zero b = []
take (suc n) [] = []
take (suc n) (x ∷ b) = x ∷ take n b

module _ (F : Fvm) where
  eth_fallback : String → Result F.Address
  eth_fallback s = do addr ← F.parse_eth_address s; F.ethers_address_to_fil_address addr

  testnet_fallback : String → Result F.Address
  testnet_fallback s = elim (F.parse_address FvmNetwork.testnet s) [
    | parsed a ↦ ok a
    | failed e ↦ eth_fallback s
  ]

  -- An FVM address of either network, or an Ethereum address; the error is the last one's.
  unfoldable pub parse_address : String → Result F.Address
  unfolding testnet_fallback eth_fallback
  parse_address s = elim (F.parse_address FvmNetwork.mainnet s) [
    | parsed a ↦ ok a
    | failed unknown_network ↦ testnet_fallback s
    | failed (invalid e) ↦ eth_fallback s
  ]

  -- The payload's Ethereum address; a delegated address shorter than 20 bytes panics at the slice.
  eth_of_payload : Payload → Result Bytes
  eth_of_payload (id n) = ok (F.eth_address_from_id n)
  eth_of_payload (delegated subaddress) =
      if leb 20 (length subaddress)
      then ok (take 20 subaddress)
      else panic "range end index 20 out of range"
  eth_of_payload other = err "address provided is not masked ID or delegated"

  unfoldable pub get_eth_address : F.Address → Result Bytes
  unfolding eth_of_payload
  get_eth_address a = eth_of_payload (F.payload a)

unfoldable pub parse_query_height : String → Result FvmQueryHeight
parse_query_height s =
    if lower_eq s "committed"
    then ok committed
    else if lower_eq s "pending"
    then ok pending
    else map_ok height (parse_u64 s)

unfoldable pub parse_metadata : String → Result (String × String)
parse_metadata s = elim (split_once b'=' s) [
  | none ↦ err ("Expected KEY=VALUE format but `=` not found in `" <> s <> "`")
  | some (key, val) ↦ ok (key, val)
]

unfoldable pub parse_metadata_optional : String → Result (String × Option String)
parse_metadata_optional s = elim (split_once b'=' s) [
  | some (key, val) ↦ if is_empty val then err "empty VALUE provided" else ok (key, some val)
  | none ↦ ok (s, none)
]
