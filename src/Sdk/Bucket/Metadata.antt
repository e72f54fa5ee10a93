-- ===== src/Sdk/Bucket/Metadata.antt =====
-- sdk/src/machine/bucket.rs: the checks of an object's metadata. The greatest sizes are constants
-- of the bucket actor; a length is cast to 32 bits before it is compared.
use rust_recall.Base.{
  Result-cases, inl, inr, ◌≢◌, panic, ℕ, ◌%◌, ◌^◌, ◌≤◌, String, ◌<>◌, Bool, false, ◌||◌, List, [],
  ◌∷◌, Option, none, some, Result, ok, err, ◌≡◌, ◌↔◌, All, ltb, if◌then◌else◌, length, arith,
}
use rust_recall.Base.Text.{as_bytes, is_empty, show}
use rust_recall.Actors.{Metadata}

-- `len() as u32`
abbrev pub len_u32 : String → ℕ
len_u32 s = length (as_bytes s) % 2 ^ 32

module _ (max_key max_value : ℕ) where
  abbrev bad_value : String → Bool
  bad_value value = is_empty value || ltb max_value (len_u32 value)

  abbrev value_error : String
  value_error = "value must non-empty and less than or equal to " <> show max_value

  unfoldable pub validate_metadata : Metadata → Result (Unit {0})
  validate_metadata [] = ok tt
  validate_metadata (entry ∷ rest) =
      let others = validate_metadata rest in
      if ltb max_key (len_u32 entry.0)
      then err ("key must be less than or equal to " <> show max_key)
      else if bad_value entry.1
      then err value_error
      else others

  bad_optional : Option String → Bool
  bad_optional none = false
  bad_optional (some value) = bad_value value

  unfoldable pub validate_metadata_optional : List (String × Option String) → Result (Unit {0})
  unfolding bad_optional
  validate_metadata_optional [] = ok tt
  validate_metadata_optional (entry ∷ rest) =
      let others = validate_metadata_optional rest in
      if ltb max_key (len_u32 entry.0)
      then err ("key must be less than or equal to" <> show max_key)
      else if bad_optional entry.1
      then err value_error
      else others

  -- A key and a value of allowed sizes; the value is not empty.
  abbrev pub IsValidValue : String → Type 0
  IsValidValue value = (is_empty value ≡ false) × (len_u32 value ≤ max_value)

  abbrev pub IsValid : String × String → Type 0
  IsValid entry = (len_u32 entry.0 ≤ max_key) × IsValidValue entry.1

  -- A value that is not given is to be deleted, and always allowed.
  abbrev pub IsValidOptional : String × Option String → Type 0
  IsValidOptional (key, none) = len_u32 key ≤ max_key
  IsValidOptional (key, some value) = (len_u32 key ≤ max_key) × IsValidValue value

  pub validate_metadata_iff : (m : Metadata) → (validate_metadata m ≡ ok tt) ↔ All IsValid m
  unfolding validate_metadata
  validate_metadata_iff [] = ground arith
  validate_metadata_iff (entry ∷ rest) = ground (arith, validate_metadata_iff rest)

  pub validate_metadata_optional_iff :
      (m : List (String × Option String))
      → (validate_metadata_optional m ≡ ok tt) ↔ All IsValidOptional m
  unfolding validate_metadata_optional
  validate_metadata_optional_iff [] = ground arith
  validate_metadata_optional_iff ((key, none) ∷ rest) =
      ground (arith, validate_metadata_optional_iff rest)
  validate_metadata_optional_iff ((key, some value) ∷ rest) =
      ground (arith, validate_metadata_optional_iff rest)

  validate_metadata_ne_panic : (m : Metadata) (x : String) → validate_metadata m ≢ panic x
  unfolding validate_metadata
  validate_metadata_ne_panic [] x h = ground arith
  validate_metadata_ne_panic (entry ∷ rest) x h = ground (arith, validate_metadata_ne_panic rest x)

  -- Metadata that is not valid is refused with an error.
  pub validate_metadata_refused :
      (m : Metadata) → ¬ All IsValid m → (e : String) × (validate_metadata m ≡ err e)
  validate_metadata_refused m h = elim (Result-cases (validate_metadata m)) [
    | inl (tt, e) ↦ absurd (h ((validate_metadata_iff m).0 e))
    | inr (inl r) ↦ r
    | inr (inr (x, e)) ↦ absurd (validate_metadata_ne_panic m x e)
  ]

  validate_optional_ne_panic :
      (m : List (String × Option String)) (x : String) → validate_metadata_optional m ≢ panic x
  unfolding validate_metadata_optional
  validate_optional_ne_panic [] x h = ground arith
  validate_optional_ne_panic (entry ∷ rest) x h = ground (arith, validate_optional_ne_panic rest x)

  pub validate_metadata_optional_refused :
      (m : List (String × Option String))
      → ¬ All IsValidOptional m
      → (e : String) × (validate_metadata_optional m ≡ err e)
  validate_metadata_optional_refused m h = elim (Result-cases (validate_metadata_optional m)) [
    | inl (tt, e) ↦ absurd (h ((validate_metadata_optional_iff m).0 e))
    | inr (inl r) ↦ r
    | inr (inr (x, e)) ↦ absurd (validate_optional_ne_panic m x e)
  ]
