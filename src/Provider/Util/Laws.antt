-- ===== src/Provider/Util/Laws.antt =====
-- The parsers of provider/src/util.rs read what they are meant to.
use Prim.Native.Char.{Char, code}
use rust_recall.Base.{ℕ, ◌<◌, ◌≤◌, String, ◌<>◌, ◌≡◌, refl, none, ok, arith, err}
use rust_recall.Base.Text.{Lacks, show, u64_mod, lower_eq, parse_u64}
use rust_recall.Base.Text.Split.{split_once_of_Lacks}
use rust_recall.Base.Text.Decimal.{parse_u64-show}
use rust_recall.Fvm.{height}
use rust_recall.Provider.Util.{parse_metadata, parse_metadata_optional, parse_query_height}

-- Without an `=` there is no value: an error, or a key alone where the value may be left out.
pub parse_metadata-bare :
    (s : String)
    → Lacks b'=' s
    → (parse_metadata s ≡ err ("Expected KEY=VALUE format but `=` not found in `" <> s <> "`"))
      × (parse_metadata_optional s ≡ ok (s, none))
unfolding parse_metadata parse_metadata_optional
parse_metadata-bare s h =
    rw (parse_metadata, parse_metadata_optional, split_once_of_Lacks b'=' s h) (refl, refl)

digits_begin : (c : Char) (s : String) (n : ℕ) → parse_u64 (String.◌∷◌ c s) ≡ ok n → code c ≤ b'9'
unfolding parse_u64
digits_begin c s n h = ground arith

parse_query_height_of_digits :
    (s : String) (n : ℕ) → parse_u64 s ≡ ok n → parse_query_height s ≡ ok (height n)
unfolding parse_query_height lower_eq
parse_query_height_of_digits String.[] n h = rw h
parse_query_height_of_digits (String.◌∷◌ c s) n h = ground (arith, digits_begin c s n h)

-- A printed block height below 2^64 is read as that height.
pub parse_query_height-show : (n : ℕ) → n < u64_mod → parse_query_height (show n) ≡ ok (height n)
parse_query_height-show n h = parse_query_height_of_digits (show n) n (parse_u64-show n h)
