-- ===== src/Prelude/Mapping.antt =====
-- How filters, searches and sorting go with a map.
use mathlib.Core.Path.{◌≡◌, refl, ap, ◌∙◌}
use mathlib.Core.Logic.{inl, inr}
use mathlib.Core.Bool.{Bool}
use mathlib.Core.Option.{Option, none, some}
use mathlib.Core.List.{List, [], ◌∷◌, map}
use kw_awards_voting_platfom.Prelude.Tests.{Bool-cases}
use kw_awards_voting_platfom.Prelude.Lists.{filter, find?}
use kw_awards_voting_platfom.Prelude.Sorting.{insert_by, sort_by}

module _ {A B : Type 0} (f : A → B) where
  abbrev pub map_found : Option A → Option B
  map_found none = none
  map_found (some a) = some (f a)

  pub find?-map :
      (p : B → Bool) (q : A → Bool) (xs : List A)
      → ((x : A) → p (f x) ≡ q x)
      → find? p (map f xs) ≡ map_found (find? q xs)
  find?-map p q [] same = refl
  find?-map p q (x ∷ xs) same = elim (Bool-cases (q x)) [
    | inl found ↦ rw (same x, found) refl
    | inr absent ↦ rw (same x, absent) (find?-map p q xs same)
  ]

  pub filter-map :
      (p : B → Bool) (q : A → Bool) (xs : List A)
      → ((x : A) → p (f x) ≡ q x)
      → filter p (map f xs) ≡ map f (filter q xs)
  filter-map p q [] same = refl
  filter-map p q (x ∷ xs) same = elim (Bool-cases (q x)) [
    | inl kept ↦ rw (same x, kept) (ap (λ r. f x ∷ r) (filter-map p q xs same))
    | inr dropped ↦ rw (same x, dropped) (filter-map p q xs same)
  ]

  module _ (le : B → B → Bool) (before : A → A → Bool)
      (same : (x y : A) → le (f x) (f y) ≡ before x y) where
    insert_by-map :
        (a : A) (xs : List A) → insert_by le (f a) (map f xs) ≡ map f (insert_by before a xs)
    unfolding insert_by
    insert_by-map a [] = refl
    insert_by-map a (x ∷ xs) = elim (Bool-cases (before a x)) [
      | inl first ↦ rw (same a x, first) refl
      | inr later ↦ rw (same a x, later) (ap (λ r. f x ∷ r) (insert_by-map a xs))
    ]

    pub sort_by-map : (xs : List A) → sort_by le (map f xs) ≡ map f (sort_by before xs)
    unfolding sort_by
    sort_by-map [] = refl
    sort_by-map (x ∷ xs) =
        ap (insert_by le (f x)) (sort_by-map xs) ∙ insert_by-map x (sort_by before xs)

  pub map-map :
      {C : Type 0} (g : B → C) (h : A → C) (xs : List A)
      → ((x : A) → g (f x) ≡ h x)
      → map g (map f xs) ≡ map h xs
  map-map g h [] same = refl
  map-map g h (x ∷ xs) same = rw (same x, map-map g h xs same) refl
