-- ===== src/Sdk/Ipc/Fees/Sort.antt =====
-- The sort of the rewards: `Vec::sort` on numbers, and what the estimate needs of it.
use rust_recall.Base.{
  ℕ, zero, suc, ◌≤◌, List, [], ◌∷◌, leb, if◌then◌else◌, length, All, arith, ◌≡◌, refl, some,
  get_elem?, All-get_elem?, Bool-cases, inl, inr,
}

unfoldable pub insert : ℕ → List ℕ → List ℕ
insert a [] = a ∷ []
insert a (b ∷ ys) = if leb a b then a ∷ b ∷ ys else b ∷ insert a ys

unfoldable pub sort : List ℕ → List ℕ
unfolding insert
sort [] = []
sort (a ∷ xs) = insert a (sort xs)

length-insert : (a : ℕ) (ys : List ℕ) → length (insert a ys) ≡ suc (length ys)
unfolding insert
length-insert a [] = refl
length-insert a (b ∷ ys) = ground (arith, length-insert a ys)

pub length-sort : (xs : List ℕ) → length (sort xs) ≡ length xs
unfolding sort
length-sort [] = refl
length-sort (a ∷ xs) = omega (arith, length-insert a (sort xs), length-sort xs)

module _ {ℓ} (P : ℕ → Type ℓ) where
  All-insert : (a : ℕ) (ys : List ℕ) → P a → All P ys → All P (insert a ys)
  unfolding insert
  All-insert a [] p h = (p, tt)
  All-insert a (b ∷ ys) p h = elim (Bool-cases (leb a b)) [
    | inl e ↦ rw e (p, h)
    | inr e ↦ rw e (h.0, All-insert a ys p h.1)
  ]

  pub All-sort : (xs : List ℕ) → All P xs → All P (sort xs)
  unfolding sort
  All-sort [] h = tt
  All-sort (a ∷ xs) h = All-insert a (sort xs) h.0 (All-sort xs h.1)

-- Each item is at most all that follow.
abbrev pub IsSorted : List ℕ → Type 0
IsSorted [] = Unit
IsSorted (a ∷ xs) = All (λ b. a ≤ b) xs × IsSorted xs

All-mono : (a b : ℕ) (ys : List ℕ) → a ≤ b → All (λ c. b ≤ c) ys → All (λ c. a ≤ c) ys
All-mono a b [] h p = tt
All-mono a b (c ∷ ys) h p = (omega (arith, p.0), All-mono a b ys h p.1)

insert-IsSorted : (a : ℕ) (ys : List ℕ) → IsSorted ys → IsSorted (insert a ys)
unfolding insert
insert-IsSorted a [] h = (tt, tt)
insert-IsSorted a (b ∷ ys) h = elim (Bool-cases (leb a b)) [
  | inl e ↦ let le : a ≤ b = ground arith in rw e ((le, All-mono a b ys le h.0), h)
  | inr e ↦
      let le : b ≤ a = ground arith in
      rw e (All-insert (λ c. b ≤ c) a ys le h.0, insert-IsSorted a ys h.1)
]

pub sort-IsSorted : (xs : List ℕ) → IsSorted (sort xs)
unfolding sort
sort-IsSorted [] = tt
sort-IsSorted (a ∷ xs) = insert-IsSorted a (sort xs) (sort-IsSorted xs)

-- An item of a sorted list is at most a later one.
pub get_elem?-IsSorted :
    (xs : List ℕ) (i j a b : ℕ)
    → IsSorted xs
    → i ≤ j
    → get_elem? xs i ≡ some a
    → get_elem? xs j ≡ some b
    → a ≤ b
get_elem?-IsSorted [] i j a b h le ei ej = cc
get_elem?-IsSorted (c ∷ xs) zero zero a b h le ei ej = ground arith
get_elem?-IsSorted (c ∷ xs) zero (suc j) a b h le ei ej =
    ground (arith, All-get_elem? (λ d. c ≤ d) xs j h.0 ej)
get_elem?-IsSorted (c ∷ xs) (suc i) zero a b h le ei ej = absurd (omega arith)
get_elem?-IsSorted (c ∷ xs) (suc i) (suc j) a b h le ei ej =
    get_elem?-IsSorted xs i j a b h.1 (omega arith) ei ej
