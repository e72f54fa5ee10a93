-- ===== src/Base/Text/Split.antt =====
-- Splitting at a character undoes joining with it.
use Prim.Native.String.{String, ◌++◌ as ◌<>◌}
use mathlib.Core.Option.{none, some}
use mathlib.Core.List.{[], ◌∷◌}
use mathlib.Core.Path.{◌≡◌, refl}
use native.Mathlib.Omega.{arith}
use Prim.Native.Nat.{ℕ}
use text.Mathlib.TextLemmas.{nil-append, cons-append}
use rust_recall.Base.Test.{◌==◌}
use Prim.Native.Char.{Char, code}
use mathlib.Core.Bool.{true}
use rust_recall.Base.Text.{Lacks, split, split_once}

pub singleton-append : (c : Char) (t : String) → String.◌∷◌ c String.[] <> t ≡ String.◌∷◌ c t
singleton-append c t = rw (cons-append, nil-append)

pub split_of_Lacks : (c : ℕ) (s : String) → Lacks c s → split c s ≡ s ∷ []
unfolding split
split_of_Lacks c String.[] h = refl
split_of_Lacks c (String.◌∷◌ d s) h = ground (arith, split_of_Lacks c s h.1)

pub split_once_of_Lacks : (c : ℕ) (s : String) → Lacks c s → split_once c s ≡ none
unfolding split_once
split_once_of_Lacks c String.[] h = refl
split_once_of_Lacks c (String.◌∷◌ d s) h = ground (arith, split_once_of_Lacks c s h.1)

module _ (c : ℕ) (sep : Char) (is_sep : (code sep == c) ≡ true) where
  -- The first piece ends at the first separator.
  pub split-append : (s t : String) → Lacks c s → split c (s <> String.◌∷◌ sep t) ≡ s ∷ split c t
  unfolding split
  split-append String.[] t h = rw nil-append (ground arith)
  split-append (String.◌∷◌ d s) t h = rw cons-append (ground (arith, split-append s t h.1))

  pub split_once-append :
      (s t : String) → Lacks c s → split_once c (s <> String.◌∷◌ sep t) ≡ some (s, t)
  unfolding split_once
  split_once-append String.[] t h = rw nil-append (ground arith)
  split_once-append (String.◌∷◌ d s) t h =
      rw cons-append (ground (arith, split_once-append s t h.1))
