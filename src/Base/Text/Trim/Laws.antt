-- ===== src/Base/Text/Trim/Laws.antt =====
-- What `trim` takes away, and what it leaves.
use Prim.Native.Char.{Char, code}
use Prim.Native.String.{String, ◌∷◌ as cons, [] as nil, ◌++◌ as ◌<>◌}
use text.Mathlib.TextLemmas.{nil-append, cons-append}
use mathlib.Core.Path.{◌≡◌, refl, ap, ◌∙◌}
use mathlib.Core.Bool.{true, false, ◌&&◌}
use native.Mathlib.Omega.{arith}
use rust_recall.Base.Test.{if◌then◌else◌}
use rust_recall.Base.Text.{is_empty}
use rust_recall.Base.Text.Trim.{is_whitespace, trim, trim_start, trim_end}

-- Only white space, and no white space.
abbrev pub IsBlank : String → Type 0
IsBlank nil = Unit
IsBlank (cons c s) = (is_whitespace (code c) ≡ true) × IsBlank s

abbrev pub IsDark : String → Type 0
IsDark nil = Unit
IsDark (cons c s) = (is_whitespace (code c) ≡ false) × IsDark s

trim_end-blank : (pad : String) → IsBlank pad → trim_end pad ≡ ""
unfolding trim_end
trim_end-blank nil h = refl
trim_end-blank (cons c s) h = rw (trim_end-blank s h.1, h.0) refl

-- White space at the end, and at the start, is trimmed.
trim_end-append : (s pad : String) → IsBlank pad → trim_end (s <> pad) ≡ trim_end s
unfolding trim_end
trim_end-append nil pad b = rw (nil-append, trim_end-blank pad b) refl
trim_end-append (cons c s) pad b = rw (cons-append, trim_end-append s pad b) refl

trim-step :
    (c : Char) (r : String)
    → is_whitespace (code c) ≡ true
    → trim_start (if is_empty r && is_whitespace (code c) then "" else cons c r) ≡ trim_start r
unfolding trim_start
trim-step c nil h = rw h refl
trim-step c (cons d r) h = rw h refl

trim-append : (pad t : String) → IsBlank pad → trim (pad <> t) ≡ trim t
unfolding trim trim_end
trim-append nil t b = rw nil-append refl
trim-append (cons c s) t b =
    rw cons-append (trim-step c (trim_end (s <> t)) b.0 ∙ trim-append s t b.1)

trim_end-dark : (s : String) → IsDark s → trim_end s ≡ s
unfolding trim_end
trim_end-dark nil h = refl
trim_end-dark (cons c s) h = ground (arith, trim_end-dark s h.1, h.0)

trim-dark : (s : String) → IsDark s → trim s ≡ s
unfolding trim trim_start
trim-dark nil h = rw (trim_end-dark nil h) refl
trim-dark (cons c s) h = rw (trim_end-dark (cons c s) h, h.0) refl

pub trim-padded :
    (before after t : String)
    → IsBlank before
    → IsBlank after
    → IsDark t
    → trim (before <> t <> after) ≡ t
unfolding trim
trim-padded before after t b a d =
    trim-append before (t <> after) b ∙ ap trim_start (trim_end-append t after a) ∙ trim-dark t d
