-- ===== src/Cli/Timehub/Text.antt =====
-- What `timehub push` accepts as a CID.
use rust_recall.Base.{String, ◌<>◌, ok, err, ◌≡◌, arith}
use rust_recall.Base.Text.Trim.Laws.{IsBlank, IsDark, trim-padded}
use rust_recall.Fvm.{Bytes, Fvm}
use rust_recall.Cli.Shell.{Host}
use rust_recall.Cli.Timehub.{read_cid, cid_of_text}

-- What the command relies on of the crate `cid`: a CID is read again from its bytes, and from its
-- text, which holds no white space.
pub record IsCid (F : Fvm) (H : Host F) : Type 0 where
  pub read_bytes-to_bytes : (c : F.Cid) → H.cid_read_bytes (H.cid_to_bytes c) ≡ ok c
  pub from_str-show_cid : (c : F.Cid) → H.cid_from_str (H.show_cid c) ≡ ok c
  pub show_cid-IsDark : (c : F.Cid) → IsDark (H.show_cid c)

-- A CID is pushed from its bytes, or from its text with any white space around it, such as a final
-- newline, if the text's bytes are not read as a CID themselves.
pub read_cid-text :
    (F : Fvm) (H : Host F) (L : IsCid F H) (c : F.Cid) (input : Bytes) (before after e : String)
    → IsBlank before
    → IsBlank after
    → H.cid_read_bytes input ≡ err e
    → F.from_utf8 input ≡ ok (before <> H.show_cid c <> after)
    → (read_cid F H (H.cid_to_bytes c) ≡ ok c) × (read_cid F H input ≡ ok c)
unfolding read_cid cid_of_text
read_cid-text F H L c input before after e b a r u = ground (
  arith,
  L.read_bytes-to_bytes c,
  L.from_str-show_cid c,
  trim-padded before after (H.show_cid c) b a (L.show_cid-IsDark c),
)
