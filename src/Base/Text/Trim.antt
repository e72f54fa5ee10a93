-- ===== src/Base/Text/Trim.antt =====
-- `str::trim`, and slices at the start of a text.
pub mod Laws
use Prim.Native.Char.{code}
use Prim.Native.String.{String}
use rust_recall.Base.Test.{leb, ◌==◌, if◌then◌else◌}
use rust_recall.Base.Text.{is_empty, starts_with}
use Prim.Native.Nat.{ℕ}
use mathlib.Core.Bool.{Bool, ◌&&◌, ◌||◌}

-- `char::is_whitespace`: the code points with the property White_Space
unfoldable pub is_whitespace : ℕ → Bool
is_whitespace c =
    (leb 9 c && leb c 13)
    || (c == 32)
    || (c == 133)
    || (c == 160)
    || (c == 5760)
    || (leb 8192 c && leb c 8202)
    || (c == 8232)
    || (c == 8233)
    || (c == 8239)
    || (c == 8287)
    || (c == 12288)

unfoldable pub trim_start : String → String
trim_start String.[] = String.[]
trim_start (String.◌∷◌ c s) =
    let rest = trim_start s in if is_whitespace (code c) then rest else String.◌∷◌ c s

unfoldable pub trim_end : String → String
trim_end String.[] = String.[]
trim_end (String.◌∷◌ c s) =
    let rest = trim_end s in
    if is_empty rest && is_whitespace (code c) then String.[] else String.◌∷◌ c rest

-- `s.trim()`
unfoldable pub trim : String → String
unfolding trim_start trim_end
trim s = trim_start (trim_end s)

-- `&s[n..]` for an `n` that counts ASCII characters
unfoldable pub drop_chars : ℕ → String → String
drop_chars ℕ.zero s = s
drop_chars (ℕ.suc n) String.[] = String.[]
drop_chars (ℕ.suc n) (String.◌∷◌ c s) = drop_chars n s

-- `s.contains(t)`
unfoldable pub contains : String → String → Bool
contains String.[] t = is_empty t
contains (String.◌∷◌ c s) t = starts_with (String.◌∷◌ c s) t || contains s t
