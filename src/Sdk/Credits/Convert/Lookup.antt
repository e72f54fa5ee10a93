-- ===== src/Sdk/Credits/Convert/Lookup.antt =====
-- Maps with text keys, as lists that `insert` and `collect` make: what is found in them.
use text.Mathlib.TextEquality.{eq_iff}
use rust_recall.Base.{
  String, List, [], ◌∷◌, Option, none, some, ◌≡◌, refl, if◌then◌else◌, arith, sym,
}
use rust_recall.Base.Text.{str_eq}
use rust_recall.Sdk.Credits.Convert.{insert, insert_all, collect}

module _ {A : Type 0} where
  -- The value of a key
  unfoldable pub lookup : String → List (String × A) → Option A
  lookup k [] = none
  lookup k (entry ∷ rest) =
      let others = lookup k rest in if str_eq entry.0 k then some entry.1 else others

  -- The value that comes last for a key, or else `before`
  unfoldable pub last_value : String → List (String × A) → Option A → Option A
  last_value k [] before = before
  last_value k (entry ∷ rest) before =
      last_value k rest (if str_eq entry.0 k then some entry.1 else before)

  pub lookup-insert :
      (k j : String) (v : A) (m : List (String × A))
      → lookup k (insert j v m) ≡ (if str_eq j k then some v else lookup k m)
  unfolding lookup insert
  lookup-insert k j v [] = refl
  lookup-insert k j v (entry ∷ rest) =
      ground (arith, lookup-insert k j v rest, eq_iff entry.0 j, eq_iff entry.0 k, eq_iff j k)

  lookup-insert_all :
      (k : String) (m entries : List (String × A))
      → lookup k (insert_all m entries) ≡ last_value k entries (lookup k m)
  unfolding insert_all last_value
  lookup-insert_all k m [] = refl
  lookup-insert_all k m (entry ∷ rest) =
      rw (sym (lookup-insert k entry.0 entry.1 m))
        (lookup-insert_all k (insert entry.0 entry.1 m) rest)

  pub lookup-collect :
      (k : String) (entries : List (String × A))
      → lookup k (collect entries) ≡ last_value k entries none
  unfolding collect lookup
  lookup-collect k entries = lookup-insert_all k [] entries
