-- ===== src/Prelude/Sorting.antt =====
-- Python's stable `list.sort` and SQL's `ORDER BY`, as insertion sort by a Boolean "comes first or
-- ties" test.
use Prim.Native.Nat.{ℕ}
use mathlib.Core.Path.{◌≡◌, refl, ◌∙◌}
use mathlib.Core.Logic.{inl, inr}
use mathlib.Core.Bool.{Bool, true, false}
use mathlib.Core.List.{List, [], ◌∷◌, Perm}
use mathlib.Core.List.Perm
use native.Mathlib.Omega.{arith}
use kw_awards_voting_platfom.Prelude.Tests.{◌==◌, if◌then◌else◌, Bool-cases}
use kw_awards_voting_platfom.Prelude.Lists.{All, All-map, any, count_where}

module _ {ℓ} {A : Type ℓ} where
  -- An element goes behind those that come before it; of ties the earlier stays first.
  unfoldable pub insert_by : (A → A → Bool) → A → List A → List A
  insert_by le a [] = a ∷ []
  insert_by le a (x ∷ xs) = let rest = insert_by le a xs in if le a x then a ∷ x ∷ xs else x ∷ rest

  unfoldable pub sort_by : (A → A → Bool) → List A → List A
  unfolding insert_by
  sort_by le [] = []
  sort_by le (x ∷ xs) = insert_by le x (sort_by le xs)

  insert_by-perm : (le : A → A → Bool) (a : A) (xs : List A) → Perm (insert_by le a xs) (a ∷ xs)
  unfolding insert_by
  insert_by-perm le a [] = Perm.refl (a ∷ [])
  insert_by-perm le a (x ∷ xs) = elim (Bool-cases (le a x)) [
    | inl first ↦ rw first (Perm.refl (a ∷ x ∷ xs))
    | inr later ↦ rw later (Perm.trans (Perm.cons x (insert_by-perm le a xs)) (Perm.swap a x xs))
  ]

  -- Sorting loses no element and adds none.
  pub sort_by-perm : (le : A → A → Bool) (xs : List A) → Perm (sort_by le xs) xs
  unfolding sort_by
  sort_by-perm le [] = Perm.refl []
  sort_by-perm le (x ∷ xs) =
      Perm.trans (insert_by-perm le x (sort_by le xs)) (Perm.cons x (sort_by-perm le xs))

-- Every element comes before, or ties with, all that stand behind it.
abbrev pub IsSorted {ℓ} : {A : Type ℓ} → (A → A → Bool) → List A → Type 0
IsSorted le [] = Unit
IsSorted le (x ∷ xs) = All (λ y. le x y ≡ true) xs × IsSorted le xs

module _ {A : Type 0} (le : A → A → Bool) where
  All-insert_by :
      (P : A → Type 0) (a : A) (xs : List A) → P a → All P xs → All P (insert_by le a xs)
  unfolding insert_by
  All-insert_by P a [] p h = (p, tt)
  All-insert_by P a (x ∷ xs) p h = elim (Bool-cases (le a x)) [
    | inl first ↦ rw first (p, h)
    | inr later ↦ rw later (h.0, All-insert_by P a xs p h.1)
  ]

  pub All-sort_by : (P : A → Type 0) (xs : List A) → All P xs → All P (sort_by le xs)
  unfolding sort_by
  All-sort_by P [] h = tt
  All-sort_by P (x ∷ xs) h = All-insert_by P x (sort_by le xs) h.0 (All-sort_by P xs h.1)

  any-insert_by : (p : A → Bool) (a : A) (xs : List A) → any p (insert_by le a xs) ≡ any p (a ∷ xs)
  unfolding insert_by
  any-insert_by p a [] = refl
  any-insert_by p a (x ∷ xs) = ground (arith, any-insert_by p a xs)

  pub any-sort_by : (p : A → Bool) (xs : List A) → any p (sort_by le xs) ≡ any p xs
  unfolding sort_by
  any-sort_by p [] = refl
  any-sort_by p (x ∷ xs) = ground (arith, any-insert_by p x (sort_by le xs), any-sort_by p xs)

module _ {A : Type 0} (le : A → A → Bool) (total : (a b : A) → le a b ≡ false → le b a ≡ true)
    (trans : (a b c : A) → le a b ≡ true → le b c ≡ true → le a c ≡ true) where
  insert_by-IsSorted : (a : A) (xs : List A) → IsSorted le xs → IsSorted le (insert_by le a xs)
  unfolding insert_by
  insert_by-IsSorted a [] h = (tt, tt)
  insert_by-IsSorted a (x ∷ xs) h = elim (Bool-cases (le a x)) [
    | inl first ↦ rw first (
      (first, All-map (λ y. le x y ≡ true) (λ y. le a y ≡ true) xs (λ y. trans a x y first) h.0),
      h,
    )
    | inr later ↦ rw later (
      All-insert_by le (λ y. le x y ≡ true) a xs (total a x later) h.0,
      insert_by-IsSorted a xs h.1,
    )
  ]

  pub sort_by-IsSorted : (xs : List A) → IsSorted le (sort_by le xs)
  unfolding sort_by
  sort_by-IsSorted [] = tt
  sort_by-IsSorted (x ∷ xs) = insert_by-IsSorted x (sort_by le xs) (sort_by-IsSorted xs)

module _ {ℓ} {A : Type ℓ} (p : A → Bool) (le : A → A → Bool) where
  count_where-insert_by :
      (a : A) (xs : List A) → count_where p (insert_by le a xs) ≡ count_where p (a ∷ xs)
  unfolding insert_by
  count_where-insert_by a [] = refl
  count_where-insert_by a (x ∷ xs) = ground (arith, count_where-insert_by a xs)

  -- A count does not depend on the order.
  pub count_where-sort_by : (xs : List A) → count_where p (sort_by le xs) ≡ count_where p xs
  unfolding sort_by
  count_where-sort_by [] = refl
  count_where-sort_by (x ∷ xs) =
      count_where-insert_by x (sort_by le xs) ∙ omega (arith, count_where-sort_by xs)

-- No number stands twice in the list.
abbrev pub Distinct : List ℕ → Type 0
Distinct [] = Unit
Distinct (i ∷ ids) = (any (λ j. i == j) ids ≡ false) × Distinct ids

module _ (le : ℕ → ℕ → Bool) where
  Distinct-insert_by :
      (a : ℕ) (xs : List ℕ)
      → any (λ j. a == j) xs ≡ false
      → Distinct xs
      → Distinct (insert_by le a xs)
  unfolding insert_by
  Distinct-insert_by a [] h d = (refl, tt)
  Distinct-insert_by a (x ∷ xs) h d = elim (Bool-cases (le a x)) [
    | inl first ↦ rw first (h, d)
    | inr later ↦ rw later (
      ground (arith, d.0, any-insert_by le (λ j. x == j) a xs),
      Distinct-insert_by a xs (ground arith) d.1,
    )
  ]

  pub Distinct-sort_by : (xs : List ℕ) → Distinct xs → Distinct (sort_by le xs)
  unfolding sort_by
  Distinct-sort_by [] d = tt
  Distinct-sort_by (x ∷ xs) d =
      Distinct-insert_by x (sort_by le xs) (any-sort_by le (λ j. x == j) xs ∙ d.0)
        (Distinct-sort_by xs d.1)
