-- ===== src/Signer/Key/RoundTrip.antt =====
-- Keys are read back from the text that they are printed in.
use Prim.Native.Char.{code}
use Prim.Native.String.{slice, ◌∷◌ as cons, [] as nil}
use text.Mathlib.TextLemmas.{nil-append, cons-append}
use text.Mathlib.TextPositions.{starts_with-append}
use text.Mathlib.TextEquality.{slice-prefix, eq_iff}
use mathlib.Core.Path.{subst}
use rust_recall.Base.{
  sym, ap, inl, inr, Bool-cases, ℕ, String, ◌<>◌, Bool, true, false, ok, ◌≡◌, refl, ◌∙◌, arith, leb,
  ◌&&◌, ◌||◌,
}
use rust_recall.Base.Text.{starts_with}
use rust_recall.Base.Text.Trim.Laws.{IsBlank, IsDark, trim-padded}
use rust_recall.Base.Text.Trim.{is_whitespace, drop_chars}
use rust_recall.Fvm.{Bytes, Fvm}
use rust_recall.Signer.Key.{Keys, parse_secret_key}

-- The characters that `hex::encode` writes
abbrev pub is_hex_digit : ℕ → Bool
is_hex_digit c = (leb b'0' c && leb c b'9') || (leb b'a' c && leb c b'f')

abbrev pub IsHexText : String → Type 0
IsHexText nil = Unit
IsHexText (cons c s) = (is_hex_digit (code c) ≡ true) × IsHexText s

hex_digit-dark : (c : ℕ) → is_hex_digit c ≡ true → is_whitespace c ≡ false
unfolding is_whitespace
hex_digit-dark c h = ground arith

IsHexText-IsDark : (s : String) → IsHexText s → IsDark s
IsHexText-IsDark nil h = tt
IsHexText-IsDark (cons c s) h = (hex_digit-dark (code c) h.0, IsHexText-IsDark s h.1)

prefix-IsHexText : (r : String) → ¬ IsHexText ("0x" <> r)
prefix-IsHexText r h =
    let same : "0x" <> r ≡ cons "0" (cons "x" r) = rw (cons-append, cons-append, nil-append) refl in
    let k : IsHexText (cons "0" (cons "x" r)) = subst IsHexText same h in ground (arith, k.1.0)

-- A text of hexadecimal digits does not begin with `0x`.
unprefixed : (s : String) → IsHexText s → starts_with s "0x" ≡ false
unprefixed s h = elim (Bool-cases (starts_with s "0x")) [
  | inl e ↦
      let (r, k) = slice-prefix s 2 in
      let same = (eq_iff (slice s 0 2) "0x").0 e in
      absurd (prefix-IsHexText r (subst IsHexText (sym (ap (λ x. x <> r) (sym same) ∙ k)) h))
  | inr e ↦ e
]

drop_chars-prefix : (s : String) → drop_chars 2 ("0x" <> s) ≡ s
unfolding drop_chars
drop_chars-prefix s = rw (cons-append, cons-append, nil-append) refl

-- What the command line relies on of the crates: `hex::decode` undoes `hex::encode`, which writes
-- hexadecimal digits, and a key is made again of its bytes.
pub record IsKeys (F : Fvm) (S : Keys F) : Type 0 where
  pub decode-encode : (b : Bytes) → S.hex_decode (S.hex_encode b) ≡ ok b
  pub encode-IsHexText : (b : Bytes) → IsHexText (S.hex_encode b)
  pub key_of_bytes-key_bytes : (k : F.SecretKey) → S.key_of_bytes (S.key_bytes k) ≡ ok k

module _ (F : Fvm) (S : Keys F) (L : IsKeys F S) where
  -- A secret key is read back from its hexadecimal text, as `account create` prints it, bare or
  -- after `0x`, with any white space around it.
  pub parse_secret_key-hex_encode :
      (k : F.SecretKey) (before after : String)
      → IsBlank before
      → IsBlank after
      → let hex = S.hex_encode (S.key_bytes k) in
        (parse_secret_key F S (before <> hex <> after) ≡ ok k)
        × (parse_secret_key F S (before <> ("0x" <> hex) <> after) ≡ ok k)
  unfolding parse_secret_key is_whitespace
  parse_secret_key-hex_encode k before after b a =
      let hex = S.hex_encode (S.key_bytes k) in
      let h : IsHexText hex = L.encode-IsHexText (S.key_bytes k) in
      let dark : IsDark ("0x" <> hex) =
        rw (cons-append, cons-append, nil-append) (refl, (refl, IsHexText-IsDark hex h)) in
      (
        rw
            (
              trim-padded before after hex b a (IsHexText-IsDark hex h),
              unprefixed hex h,
              L.decode-encode (S.key_bytes k),
              L.key_of_bytes-key_bytes k,
            )
            refl,
        rw
            (
              trim-padded before after ("0x" <> hex) b a dark,
              starts_with-append "0x" hex,
              drop_chars-prefix hex,
              L.decode-encode (S.key_bytes k),
              L.key_of_bytes-key_bytes k,
            )
            refl,
      )
