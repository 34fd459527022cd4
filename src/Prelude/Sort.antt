-- ===== src/Prelude/Sort.antt =====
-- `Array.prototype.sort`, which is stable: insertion sort by a Boolean `not after`.
use mathlib.Core.Path.{◌≡◌}
use mathlib.Core.Logic.{inl, inr}
use mathlib.Core.Bool.{Bool, true, false}
use mathlib.Core.List.{List, [], ◌∷◌, Perm}
use mathlib.Core.List.Perm
use vorcaro_ledger.Prelude.Tests.{if◌then◌else◌, Bool-cases}
use vorcaro_ledger.Prelude.Lists.{All}

module _ {ℓ} {A : Type ℓ} (le : A → A → Bool) where
  unfoldable pub insert : A → List A → List A
  insert x [] = x ∷ []
  insert x (y ∷ ys) = let rest = insert x ys in if le x y then x ∷ y ∷ ys else y ∷ rest

  unfoldable pub sort : List A → List A
  sort [] = []
  sort (x ∷ xs) = insert x (sort xs)

  insert-perm : (x : A) (xs : List A) → Perm (insert x xs) (x ∷ xs)
  unfolding insert
  insert-perm x [] = Perm.refl (x ∷ [])
  insert-perm x (y ∷ ys) = elim (Bool-cases (le x y)) [
    | inl first ↦ rw first (Perm.refl (x ∷ y ∷ ys))
    | inr behind ↦ rw behind (Perm.trans (Perm.cons y (insert-perm x ys)) (Perm.swap x y ys))
  ]

  pub sort-perm : (xs : List A) → Perm (sort xs) xs
  unfolding sort
  sort-perm [] = Perm.refl []
  sort-perm (x ∷ xs) = Perm.trans (insert-perm x (sort xs)) (Perm.cons x (sort-perm xs))

  -- Each entry is not after any later one.
  abbrev pub IsSorted : List A → Type ℓ
  IsSorted [] = Unit
  IsSorted (x ∷ xs) = All (λ y. le x y ≡ true) xs × IsSorted xs

  -- What holds of each entry holds of each after an insertion, and after sorting.
  pub insert-All {κ} : (P : A → Type κ) (x : A) (xs : List A) → P x → All P xs → All P (insert x xs)
  unfolding insert
  insert-All P x [] h k = (h, tt)
  insert-All P x (y ∷ ys) h k = elim (Bool-cases (le x y)) [
    | inl first ↦ rw first (h, k)
    | inr behind ↦ rw behind (k.0, insert-All P x ys h k.1)
  ]

  pub sort-All {κ} : (P : A → Type κ) (xs : List A) → All P xs → All P (sort xs)
  unfolding sort
  sort-All P [] h = tt
  sort-All P (x ∷ xs) h = insert-All P x (sort xs) h.0 (sort-All P xs h.1)

  -- A symmetric relation between any two entries.
  module _ {κ} (R : A → A → Type κ) (flip : (x y : A) → R x y → R y x) where
    abbrev pub Apart : List A → Type (ℓ ⊔ κ)
    Apart [] = Unit
    Apart (x ∷ xs) = All (R x) xs × Apart xs

    insert-Apart : (x : A) (xs : List A) → All (R x) xs → Apart xs → Apart (insert x xs)
    unfolding insert
    insert-Apart x [] h k = (tt, tt)
    insert-Apart x (y ∷ ys) h k = elim (Bool-cases (le x y)) [
      | inl first ↦ rw first (h, k)
      | inr behind ↦ rw behind (insert-All (R y) x ys (flip x y h.0) k.0, insert-Apart x ys h.1 k.1)
    ]

    pub sort-Apart : (xs : List A) → Apart xs → Apart (sort xs)
    unfolding sort
    sort-Apart [] h = tt
    sort-Apart (x ∷ xs) h = insert-Apart x (sort xs) (sort-All (R x) xs h.0) (sort-Apart xs h.1)

  module _ (total : (x y : A) → le x y ≡ false → le y x ≡ true)
      (trans : (x y z : A) → le x y ≡ true → le y z ≡ true → le x z ≡ true) where
    All-trans :
        (x y : A) (ys : List A)
        → le x y ≡ true
        → All (λ z. le y z ≡ true) ys
        → All (λ z. le x z ≡ true) ys
    All-trans x y [] h k = tt
    All-trans x y (z ∷ zs) h k = (trans x y z h k.0, All-trans x y zs h k.1)

    All-insert :
        (y x : A) (ys : List A)
        → le y x ≡ true
        → All (λ z. le y z ≡ true) ys
        → All (λ z. le y z ≡ true) (insert x ys)
    unfolding insert
    All-insert y x [] h k = (h, tt)
    All-insert y x (z ∷ zs) h k = elim (Bool-cases (le x z)) [
      | inl first ↦ rw first (h, k)
      | inr behind ↦ rw behind (k.0, All-insert y x zs h k.1)
    ]

    insert-IsSorted : (x : A) (xs : List A) → IsSorted xs → IsSorted (insert x xs)
    unfolding insert
    insert-IsSorted x [] h = (tt, tt)
    insert-IsSorted x (y ∷ ys) h = elim (Bool-cases (le x y)) [
      | inl first ↦ rw first ((first, All-trans x y ys first h.0), h)
      | inr behind ↦ rw behind (All-insert y x ys (total x y behind) h.0, insert-IsSorted x ys h.1)
    ]

    pub sort-IsSorted : (xs : List A) → IsSorted (sort xs)
    unfolding sort
    sort-IsSorted [] = tt
    sort-IsSorted (x ∷ xs) = insert-IsSorted x (sort xs) (sort-IsSorted xs)
