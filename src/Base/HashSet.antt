-- ===== src/Base/HashSet.antt =====
-- `HashSet` of Rust's standard library: lists, in which neither order nor repetition counts.
use mathlib.Core.List.{List, ◌∷◌, Mem, mem-cons, Mem-prop, mem-cons_of_mem}
use mathlib.Core.Logic.Or
use mathlib.Core.Logic.{◌↔◌}
use mathlib.Core.Path.{◌≡◌, refl}
use mathlib.Core.Quot
use mathlib.Core.Quot.{Quot, Quot-set}

module _ {ℓ} {A : Type ℓ} where
  -- Two lists have the same members.
  abbrev pub SameMembers : List A → List A → Type ℓ
  SameMembers xs ys = (a : A) → Mem a xs ↔ Mem a ys

  Mem-cons : (x a : A) (xs ys : List A) → (Mem a xs → Mem a ys) → Mem a (x ∷ xs) → Mem a (x ∷ ys)
  Mem-cons x a xs ys f m =
      Or.elim (Mem-prop {a = a} {l = x ∷ ys}) (mem-cons.0 m)
        (λ e. mem-cons.1 (Or.inl {B = Mem a ys} e)) (λ n. mem-cons_of_mem x (f n))

  SameMembers-cons : (x : A) (xs ys : List A) → SameMembers xs ys → SameMembers (x ∷ xs) (x ∷ ys)
  SameMembers-cons x xs ys h a = (Mem-cons x a xs ys (h a).0, Mem-cons x a ys xs (h a).1)

abbrev pub HashSet {ℓ} : Type ℓ → Type ℓ
HashSet A = Quot (SameMembers {A = A})

module _ {ℓ} {A : Type ℓ} where
  abbrev pub hash_set : List A → HashSet A
  hash_set xs = Quot.mk xs

  pub insert : A → HashSet A → HashSet A
  insert a =
      Quot.lift Quot-set (λ xs. Quot.mk (a ∷ xs))
        (λ xs ys h. Quot.sound (SameMembers-cons a xs ys h))

  pub insert-hash_set : (a : A) (xs : List A) → insert a (hash_set xs) ≡ hash_set (a ∷ xs)
  unfolding insert
  insert-hash_set a xs = refl

  -- Lists with the same members are one set.
  pub hash_set-SameMembers : (xs ys : List A) → SameMembers xs ys → hash_set xs ≡ hash_set ys
  hash_set-SameMembers xs ys h = Quot.sound h
