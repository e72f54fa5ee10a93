-- ===== src/Provider/Response/Cid.antt =====
-- provider/src/response.rs: `Cid`, the wrapper of a CID that is written as text in JSON. The other
-- files write `Fvm.Cid` for the CID inside.
use rust_recall.Base.{String, Result, ok, ◌≡◌, refl, map_ok, ◌>>=◌}

-- The crate `cid`: `Cid::try_from` of a text, and its display, which it reads back
pub record CidCrate : Type 1 where
  pub Inner : Type 0
  pub try_from : String → Result Inner
  pub show : Inner → String

module _ (X : CidCrate) where
  pub record Cid : Type 0 where
    pub inner : X.Inner

  unfoldable pub to_cid : X.Inner → Cid
  to_cid v = record { inner = v }

  unfoldable pub cid_from_str : String → Result Cid
  unfolding to_cid
  cid_from_str s = map_ok to_cid (X.try_from s)

  unfoldable pub display_cid : Cid → String
  display_cid cid = X.show cid.inner

  -- `Deserialize::deserialize`, from the text that is found, and `Serialize::serialize`
  unfoldable pub deserialize_cid : Result String → Result Cid
  unfolding cid_from_str
  deserialize_cid found = found >>= cid_from_str

  unfoldable pub serialize_cid : Cid → String
  unfolding display_cid
  serialize_cid cid = display_cid cid

  -- A CID that is written is read back, if the crate reads what it displays.
  pub deserialize_cid-serialize_cid :
      ((v : X.Inner) → X.try_from (X.show v) ≡ ok v)
      → (cid : Cid) → deserialize_cid (ok (serialize_cid cid)) ≡ ok cid
  unfolding deserialize_cid serialize_cid
  deserialize_cid-serialize_cid law cid = rw (law cid.inner) refl
