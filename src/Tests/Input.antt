-- ===== src/Tests/Input.antt =====
-- Tests of the inputs of commands: CIDs, metadata, heights, names of subnets and addresses.
use rust_recall.Base.{◌<>◌, arith, ℕ, zero, suc, [], ◌∷◌, Result, ok, err, ◌≡◌, refl, ap}
use rust_recall.Base.Text.Trim.{is_whitespace}
use rust_recall.Base.Text.Trim.Laws.{IsDark}
use rust_recall.Base.Text.{show, parse_u64}
use rust_recall.Fvm.{Bytes, height}
use rust_recall.Provider.Util.{parse_address, parse_query_height}
use rust_recall.Provider.Util.Laws.{parse_query_height-show}
use rust_recall.Cli.Options.{parse_address_list}
use rust_recall.Cli.Options.Addresses.{join, parse_address_list_bad}
use rust_recall.Cli.Shell.{Host}
use rust_recall.Cli.Timehub.{read_cid}
use rust_recall.Cli.Timehub.Text.{IsCid, read_cid-text}
use rust_recall.Tests.Samples.{chain, unary, bytes_of, bytes_of-unary}
use rust_recall.Tests.Host.{host}

-- A CID in binary form stands after one byte, and as a text it is written in unary.
abbrev read_binary : Bytes → Result ℕ
read_binary [] = err "no binary CID"
read_binary (c ∷ []) = err "no binary CID"
read_binary (b ∷ c ∷ rest) = ok c

abbrev first : Bytes → Result ℕ
first [] = err "no CID"
first (c ∷ rest) = ok c

abbrev cid_host : Host chain
cid_host = record host {
  show_cid = λ c. unary c "";
  cid_read_bytes = read_binary;
  cid_from_str = λ s. first (bytes_of s);
  cid_to_bytes = λ c. 0 ∷ c ∷ [];
}

unary-IsDark : (n : ℕ) → IsDark (unary n "")
unfolding is_whitespace
unary-IsDark zero = (refl, tt)
unary-IsDark (suc n) = (refl, unary-IsDark n)

cid_host-IsCid : IsCid chain cid_host
cid_host-IsCid = record {
  read_bytes-to_bytes = λ c. refl;
  from_str-show_cid = λ c. ap first (bytes_of-unary c "");
  show_cid-IsDark = unary-IsDark;
}

read_cid-text_example :
    (read_cid chain cid_host (0 ∷ 4 ∷ []) ≡ ok 4) × (read_cid chain cid_host (4 ∷ []) ≡ ok 4)
read_cid-text_example =
    read_cid-text chain cid_host cid_host-IsCid 4 (4 ∷ []) "" "" "no binary CID" tt tt refl refl

parse_query_height-show_example : parse_query_height (show 120) ≡ ok (height 120)
parse_query_height-show_example = parse_query_height-show 120 (ground arith)

two : parse_address chain "2" ≡ ok 2
unfolding parse_address parse_u64
two = refl

no_address : parse_address chain "x" ≡ err "no Ethereum address"
unfolding parse_address parse_u64
no_address = refl

parse_address_list_bad_example :
    parse_address_list chain (join "2" ("x" ∷ "2" ∷ []))
    ≡ err ("error parsing address: " <> "no Ethereum address")
parse_address_list_bad_example =
    parse_address_list_bad chain ("2", 2) [] "x" ("2" ∷ []) "no Ethereum address" ((refl, tt), two)
      tt (refl, tt) (((refl, tt), tt)) no_address
