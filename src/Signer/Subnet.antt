-- ===== src/Signer/Subnet.antt =====
-- signer/src/subnet.rs: subnet IDs, with or without a real parent.
pub mod RoundTrip
pub mod ChainId
use rust_recall.Base.{
  ℕ, ◌%◌, String, ◌<>◌, List, [], ◌∷◌, Option, none, some, Result, ok, err, panic, map_err, map_ok,
  ◌>>=◌, if◌then◌else◌,
}
use rust_recall.Base.Text.{as_bytes, is_empty, starts_with, split, skip_one, parse_u64, show}
use rust_recall.Fvm.{Bytes, Fvm}
use rust_recall.Provider.Util.{parse_address}

module _ (F : Fvm) where
  pub record SubnetId : Type 0 where
    pub faux : String
    pub real : F.SubnetPath
    pub explicit_chain_id : Option ℕ

  -- `hash`
  unfoldable pub hash : Bytes → ℕ
  hash bytes = F.fnv_hash bytes % F.max_chain_id

  -- `SubnetID::parent`
  unfoldable pub parent : SubnetId → Result SubnetId
  parent id = elim (F.parent_subnet id.real) [
    | some p ↦ ok (record { faux = ""; real = p; explicit_chain_id = none })
    | none ↦ err "subnet has no parent"
  ]

  unfoldable pub with_chain_id : SubnetId → ℕ → SubnetId
  with_chain_id id chain_id = record id { explicit_chain_id = some chain_id }

  implicit_chain_id : SubnetId → ℕ
  unfolding hash as_bytes
  implicit_chain_id id =
      if F.is_root id.real
      then (if is_empty id.faux then F.root_id id.real else hash (as_bytes id.faux))
      else F.subnet_chain_id id.real

  -- `SubnetID::chain_id`
  unfoldable pub chain_id : SubnetId → ℕ
  unfolding implicit_chain_id
  chain_id id = elim id.explicit_chain_id [ some c ↦ c | none ↦ implicit_chain_id id ]

  display_children : List F.Address → String
  display_children [] = ""
  display_children (a ∷ rest) = "/" <> F.show_address a <> display_children rest

  -- `Display::fmt`
  unfoldable pub display : SubnetId → String
  unfolding display_children
  display id =
      if is_empty id.faux
      then "/r" <> show (F.root_id id.real) <> display_children (F.children id.real)
      else id.faux

  -- The loop over the segments behind the root: the first that is no address ends it.
  parse_children : String → List String → Result (List F.Address)
  parse_children id [] = ok []
  parse_children id (segment ∷ rest) = do
    addr ←
        map_err (parse_address F segment)
          (λ e. F.invalid_id id ("invalid child address " <> segment <> ": " <> e))
    map_ok (◌∷◌ addr) (parse_children id rest)

  parse_root : String → String → Result ℕ
  parse_root id segment = elim (skip_one segment) [
    | none ↦ panic "byte index 1 is out of bounds"
    | some digits ↦ map_err (parse_u64 digits) (λ _. F.invalid_id id "invalid root ID")
  ]

  -- The pieces of `id.split('/')`; the first stands before the leading slash.
  parse_segments : String → List String → Result SubnetId
  unfolding parse_root parse_children
  parse_segments id (before ∷ root_segment ∷ segments) = do
    root ← parse_root id root_segment
    children ← parse_children id segments
    ok (record { faux = ""; real = F.new_subnet root children; explicit_chain_id = none })
  parse_segments id _ = panic "index out of bounds"

  -- `FromStr::from_str`
  unfoldable pub parse_subnet_id : String → Result SubnetId
  unfolding parse_segments
  parse_subnet_id id =
      if starts_with id "/r"
      then parse_segments id (split b'/' id)
      else ok (record { faux = id; real = F.default_subnet; explicit_chain_id = none })
