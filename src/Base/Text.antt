-- ===== src/Base/Text.antt =====
-- What the program uses of Rust's `str`: decimal numbers, `split`, `find` of a character,
-- `trim`, `starts_with`. A text is a native `String`; `len` counts its bytes.
pub mod Decimal
pub mod Split
pub mod Trim
use Prim.Native.Char.{Char, code}
use Prim.Native.String.{String, ◌++◌ as ◌<>◌}
use rust_recall.Base.Outcome.{Result, ok, err}
use rust_recall.Base.Test.{ltb, leb, ◌==◌, if◌then◌else◌}
use Prim.Native.Nat.{ℕ, zero, suc, ◌+◌, ◌-◌, ◌*◌, ◌/◌, ◌%◌, ◌^◌}
use mathlib.Core.Path.{◌≡◌, refl}
use mathlib.Core.Bool.{Bool, true, false, ◌&&◌, ◌||◌}
use mathlib.Core.Option.{Option, none, some}
use mathlib.Core.List.{List, [], ◌∷◌, ◌++◌}
pub use text.Mathlib.Text.{◌==◌ as str_eq, starts_with}

abbrev pub is_empty : String → Bool
is_empty String.[] = true
is_empty (String.◌∷◌ c s) = false

abbrev pub codes : String → List ℕ
codes String.[] = []
codes (String.◌∷◌ c s) = code c ∷ codes s

-- The UTF-8 encoding of a code point, and `str::as_bytes`
utf8 : ℕ → List ℕ
utf8 c =
    if ltb c 128
    then c ∷ []
    else if ltb c 2048
    then (192 + c / 64) ∷ (128 + c % 64) ∷ []
    else if ltb c 65536
    then (224 + c / 4096) ∷ (128 + c / 64 % 64) ∷ (128 + c % 64) ∷ []
    else (240 + c / 262144) ∷ (128 + c / 4096 % 64) ∷ (128 + c / 64 % 64) ∷ (128 + c % 64) ∷ []

unfoldable pub as_bytes : String → List ℕ
unfolding utf8
as_bytes String.[] = []
as_bytes (String.◌∷◌ c s) = utf8 (code c) ++ as_bytes s

-- No character of the text has this code.
abbrev pub Lacks : ℕ → String → Type 0
Lacks c String.[] = Unit
Lacks c (String.◌∷◌ d s) = ((code d == c) ≡ false) × Lacks c s

digit : ℕ → String
digit zero = "0"
digit (suc zero) = "1"
digit (suc (suc zero)) = "2"
digit (suc (suc (suc zero))) = "3"
digit (suc (suc (suc (suc zero)))) = "4"
digit (suc (suc (suc (suc (suc zero))))) = "5"
digit (suc (suc (suc (suc (suc (suc zero)))))) = "6"
digit (suc (suc (suc (suc (suc (suc (suc zero))))))) = "7"
digit (suc (suc (suc (suc (suc (suc (suc (suc zero)))))))) = "8"
digit _ = "9"

show_fuel : ℕ → ℕ → String
show_fuel zero n = ""
show_fuel (suc f) n =
    let front = show_fuel f (n / 10) in if ltb n 10 then digit n else front <> digit (n % 10)

-- `u64::to_string`. A number has fewer digits than its size, so the fuel is enough.
unfoldable pub show : ℕ → String
unfolding show_fuel digit
show n = show_fuel (suc n) n

abbrev pub u64_mod : ℕ
u64_mod = 2 ^ 64

abbrev pub u32_mod : ℕ
u32_mod = 2 ^ 32

-- The checked steps of `u64::from_str` after its sign.
digits_from : ℕ → String → Result ℕ
digits_from acc String.[] = ok acc
digits_from acc (String.◌∷◌ c s) =
    let next = acc * 10 + (code c - b'0') in
    let rest = digits_from next s in
    if leb b'0' (code c) && leb (code c) b'9'
    then (if ltb next u64_mod then rest else err "number too large to fit in target type")
    else err "invalid digit found in string"

-- `str::parse::<u64>`: one leading `+` is skipped if digits follow.
unfoldable pub parse_u64 : String → Result ℕ
unfolding digits_from
parse_u64 String.[] = err "cannot parse integer from empty string"
parse_u64 (String.◌∷◌ c s) =
    if code c == b'+' && (if is_empty s then false else true)
    then digits_from 0 s
    else digits_from 0 (String.◌∷◌ c s)

cons_head : Char → List String → List String
cons_head c [] = String.◌∷◌ c String.[] ∷ []
cons_head c (s ∷ r) = String.◌∷◌ c s ∷ r

-- `s.split(c)`
unfoldable pub split : ℕ → String → List String
unfolding cons_head
split c String.[] = String.[] ∷ []
split c (String.◌∷◌ d s) =
    let rest = split c s in if code d == c then String.[] ∷ rest else cons_head d rest

-- `s.find(c)`, with the two parts `s[..pos]` and `s[pos + 1..]`
unfoldable pub split_once : ℕ → String → Option (String × String)
split_once c String.[] = none
split_once c (String.◌∷◌ d s) =
    let rest = split_once c s in
    if code d == c
    then some (String.[], s)
    else elim rest [ none ↦ none | some (a, b) ↦ some (String.◌∷◌ d a, b) ]

-- `s[1..]`: slicing inside the first character, or past the end, panics.
unfoldable pub skip_one : String → Option String
skip_one String.[] = none
skip_one (String.◌∷◌ c s) = if ltb (code c) 128 then some s else none

-- The ASCII part of `char::to_lowercase`.
abbrev lower : ℕ → ℕ
lower c = if leb b'A' c && leb c b'Z' then c + 32 else c

same_lower : List ℕ → List ℕ → Bool
same_lower [] [] = true
same_lower (c ∷ s) (d ∷ t) = (lower c == d) && same_lower s t
same_lower _ _ = false

-- `s.to_lowercase() == t`, for an ASCII text `t` in lower case that holds no `k`: no other
-- character than a Latin letter is lowered to one of its letters.
unfoldable pub lower_eq : String → String → Bool
unfolding same_lower
lower_eq s t = same_lower (codes s) (codes t)
