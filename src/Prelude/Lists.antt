-- ===== src/Prelude/Lists.antt =====
-- Lists as the program uses them: arrays with `find`, `some`, `includes`, and tables with
-- `UPDATE … WHERE`.
use Prim.Native.Nat.{ℕ, zero, suc, ◌+◌}
use mathlib.Core.Path.{◌≡◌, refl, ap, subst}
use mathlib.Core.Logic.{◌⊎◌, ◌↔◌, inl, inr}
use mathlib.Core.Bool.{Bool, true, false, ◌||◌}
use mathlib.Core.List.{List, [], ◌∷◌, ◌++◌, map}
use mathlib.Core.Option
use mathlib.Core.Option.{Option, none, some}
use native.Mathlib.Omega.{arith}
use vorcaro_ledger.Prelude.Tests.{if◌then◌else◌, Bool-cases}

module _ {ℓ} {A : Type ℓ} where
  abbrev pub length : List A → ℕ
  length [] = 0
  length (x ∷ xs) = suc (length xs)

  pub length-append : (xs ys : List A) → length (xs ++ ys) ≡ length xs + length ys
  length-append [] ys = omega arith
  length-append (x ∷ xs) ys = omega (arith, length-append xs ys)

  -- The first entry that passes the test.
  unfoldable pub find : (A → Bool) → List A → Option A
  find p [] = none
  find p (x ∷ xs) = if p x then some x else find p xs

  unfoldable pub any : (A → Bool) → List A → Bool
  any p [] = false
  any p (x ∷ xs) = p x || any p xs

  unfoldable pub filter_by : (A → Bool) → List A → List A
  filter_by p [] = []
  filter_by p (x ∷ xs) = let rest = filter_by p xs in if p x then x ∷ rest else rest

  unfoldable pub take : ℕ → List A → List A
  take zero xs = []
  take (suc n) [] = []
  take (suc n) (x ∷ xs) = x ∷ take n xs

  unfoldable pub drop : ℕ → List A → List A
  drop zero xs = xs
  drop (suc n) [] = []
  drop (suc n) (x ∷ xs) = drop n xs

  abbrev pub apply_where : (A → Bool) → (A → A) → A → A
  apply_where p f x = if p x then f x else x

  -- `UPDATE table SET f WHERE p`
  unfoldable pub update_where : (A → Bool) → (A → A) → List A → List A
  update_where p f = map (apply_where p f)

  abbrev pub All {κ} : (A → Type κ) → List A → Type κ
  All P [] = Unit
  All P (x ∷ xs) = P x × All P xs

module _ {ℓ} {A : Type ℓ} where
  -- What holds of each entry holds of each that a test selects.
  pub filter_by-All {κ} :
      (P : A → Type κ) (p : A → Bool) (xs : List A) → All P xs → All P (filter_by p xs)
  unfolding filter_by
  filter_by-All P p [] h = tt
  filter_by-All P p (x ∷ xs) h = elim (Bool-cases (p x)) [
    | inl passes ↦ rw passes (h.0, filter_by-All P p xs h.1)
    | inr fails ↦ rw fails (filter_by-All P p xs h.1)
  ]

  abbrev pub is_defined : Option A → Bool
  is_defined none = false
  is_defined (some _) = true

  pub find-some : (p : A → Bool) (xs : List A) (x : A) → find p xs ≡ some x → p x ≡ true
  unfolding find
  find-some p [] x h = ground arith
  find-some p (y ∷ ys) x h = ground (arith, find-some p ys x)

  pub any-find : (p : A → Bool) (xs : List A) → any p xs ≡ is_defined (find p xs)
  unfolding any find
  any-find p [] = refl
  any-find p (y ∷ ys) = ground (arith, any-find p ys)

  -- What no entry passes, the entry that is found does not pass.
  pub any-find-some :
      (q p : A → Bool) (xs : List A) (x : A) → any q xs ≡ false → find p xs ≡ some x → q x ≡ false
  unfolding any find
  any-find-some q p [] x none_passes h = ground arith
  any-find-some q p (y ∷ ys) x none_passes h = ground (arith, any-find-some q p ys x)

  -- An update that keeps what a search tests changes the found entry in place.
  pub find-update_where :
      (p q : A → Bool) (f : A → A)
      → ((x : A) → p (f x) ≡ p x)
      → (xs : List A) → find p (update_where q f xs) ≡ Option.map (apply_where q f) (find p xs)
  unfolding find update_where
  find-update_where p q f keeps [] = refl
  find-update_where p q f keeps (y ∷ ys) = ground (arith, keeps y, find-update_where p q f keeps ys)

-- The elements that were there stay where they are, below what was added.
abbrev pub Extends {ℓ} : {A : Type ℓ} → List A → List A → Type ℓ
Extends {A} old new = (added : List A) × (new ≡ added ++ old)

pub extended {ℓ} : {A : Type ℓ} {old new : List A} (x : A) → Extends old new → Extends old (x ∷ new)
extended x (added, is) = (x ∷ added, ap (λ xs. x ∷ xs) is)

-- Some entry is such.
abbrev pub Has : {A : Type 0} → (A → Type 0) → List A → Type 0
Has P [] = ⊥
Has P (x ∷ xs) = P x ⊎ Has P xs

module _ {A : Type 0} (P : A → Type 0) (p : A → Bool) (tests : (x : A) → (p x ≡ true) ↔ P x) where
  pub any-Has : (xs : List A) → any p xs ≡ true → Has P xs
  unfolding any
  any-Has [] h = absurd (cc)
  any-Has (x ∷ xs) h = elim (Bool-cases (p x)) [
    | inl passes ↦ inl ((tests x).0 passes)
    | inr fails ↦ inr (any-Has xs (ground (arith, h, fails)))
  ]

  pub Has-any : (xs : List A) → Has P xs → any p xs ≡ true
  unfolding any
  Has-any [] h = elim h [ ]
  Has-any (x ∷ xs) (inl such) = ground (arith, (tests x).1 such)
  Has-any (x ∷ xs) (inr later) = ground (arith, Has-any xs later)

  -- None passes where none is such.
  pub any-All : (xs : List A) → any p xs ≡ false → All (λ x. ¬ P x) xs
  unfolding any
  any-All [] h = tt
  any-All (x ∷ xs) h =
      (λ such. absurd (let passes = (tests x).1 such in ground arith), any-All xs (ground arith))

module _ {A : Type 0} (Q : A → Type 0) (p : A → Bool) where
  -- What holds after an update, of the changed entries and of the others.
  pub update_where-All :
      (f : A → A)
      → ((x : A) → p x ≡ true → Q (f x))
      → ((x : A) → p x ≡ false → Q x)
      → (xs : List A) → All Q (update_where p f xs)
  unfolding update_where
  update_where-All f changed kept [] = tt
  update_where-All f changed kept (x ∷ xs) = (
    elim (Bool-cases (p x)) [
      | inl passes ↦ rw passes (changed x passes)
      | inr fails ↦ rw fails (kept x fails)
    ],
    update_where-All f changed kept xs,
  )

  pub find-All : (xs : List A) (x : A) → All Q xs → find p xs ≡ some x → Q x
  unfolding find
  find-All [] x h found = absurd (cc)
  find-All (y ∷ ys) x h found = elim (Bool-cases (p y)) [
    | inl passes ↦ subst Q {x = y} (ground (arith, found, passes)) h.0
    | inr fails ↦ find-All ys x h.1 (ground (arith, found, fails))
  ]
