-- ===== src/Voting/Results/Ranking.antt =====
-- `_rank` sorts the entries and gives competition ranks (1, 1, 3).
use mathlib.Core.List.{Perm}
use mathlib.Core.List.Perm
use kw_awards_voting_platfom.Prelude.{
  ℕ, ◌+◌, true, false, List, [], ◌∷◌, map, ◌≡◌, refl, ap, ltb, All, arith, count_where, Text,
  text_le-total, text_le_trans, text_le_antisymm, text_eq→eq,
}
use kw_awards_voting_platfom.Prelude.Sorting.{
  sort_by, IsSorted, sort_by-IsSorted, sort_by-perm, count_where-sort_by,
}
use kw_awards_voting_platfom.Voting.Results.{Entry, rank_le, rank_in, with_rank, rank}

module _ (lower : Text → Text) where
  rank_le-total : (a b : Entry) → rank_le lower a b ≡ false → rank_le lower b a ≡ true
  unfolding rank_le
  rank_le-total a b h = ground (
    arith,
    text_le-total (lower b.name) (lower a.name),
    text_le_antisymm (lower a.name) (lower b.name),
    text_le_antisymm (lower b.name) (lower a.name),
  )

  rank_le_trans :
      (a b c : Entry)
      → rank_le lower a b ≡ true
      → rank_le lower b c ≡ true
      → rank_le lower a c ≡ true
  unfolding rank_le
  rank_le_trans a b c h k = ground (
    arith,
    text_le-total (lower b.name) (lower a.name),
    text_le_trans (lower c.name) (lower a.name) (lower b.name),
    text_eq→eq (lower a.name) (lower b.name),
    text_eq→eq (lower b.name) (lower c.name),
  )

  -- The rank that is filled in plays no part in the order.
  IsSorted-with_rank :
      (s : List Entry) (xs : List Entry)
      → IsSorted (rank_le lower) xs
      → IsSorted (rank_le lower) (map (with_rank s) xs)
  IsSorted-with_rank s [] h = tt
  IsSorted-with_rank s (x ∷ xs) h = (behind s x xs h.0, IsSorted-with_rank s xs h.1)
    where
      behind :
          (s : List Entry) (x : Entry) (xs : List Entry)
          → All (λ y. rank_le lower x y ≡ true) xs
          → All (λ y. rank_le lower (with_rank s x) y ≡ true) (map (with_rank s) xs)
      behind s x [] h = tt
      behind s x (y ∷ xs) h = (unfold rank_le in h.0, behind s x xs h.1)

-- An entry without its rank.
abbrev pub unranked : Entry → Entry
unranked e = record e { rank = 0 }

unranked-with_rank : (s xs : List Entry) → map unranked (map (with_rank s) xs) ≡ map unranked xs
unranked-with_rank s [] = refl
unranked-with_rank s (x ∷ xs) = ap (◌∷◌ (unranked x)) (unranked-with_rank s xs)

ranks-with_rank :
    (f : ℕ → ℕ) (s xs : List Entry)
    → ((n : ℕ) → rank_in s n ≡ f n)
    → All (λ e. e.rank ≡ f e.votes) (map (with_rank s) xs)
ranks-with_rank f s [] h = tt
ranks-with_rank f s (x ∷ xs) h = (h x.votes, ranks-with_rank f s xs h)

-- A ranking is sorted by votes, name and nomination, has the entries that it was given, and the rank
-- of each is one more than the number of entries with more votes, so that ties share a rank.
pub rank_lem :
    (lower : Text → Text) (entries : List Entry)
    → IsSorted (rank_le lower) (rank lower entries)
      × Perm (map unranked (rank lower entries)) (map unranked entries)
      × All
          (λ e. e.rank ≡ 1 + count_where (λ (other : Entry). ltb e.votes other.votes) entries)
          (rank lower entries)
unfolding rank
rank_lem lower entries =
    let s = sort_by (rank_le lower) entries in
    (
      IsSorted-with_rank lower s s
          (sort_by-IsSorted (rank_le lower) (rank_le-total lower) (rank_le_trans lower) entries),
      rw (unranked-with_rank s s) (Perm.map unranked (sort_by-perm (rank_le lower) entries)),
      ranks-with_rank (λ n. 1 + count_where (λ (other : Entry). ltb n other.votes) entries) s s
          (λ n.
            ap (λ (k : ℕ). 1 + k)
              (count_where-sort_by (λ (other : Entry). ltb n other.votes) (rank_le lower) entries)),
    )
