-- ===== src/Voting/Purge/Reporting.antt =====
-- What the command reports, and what it deletes of the table of voters.
use kw_awards_voting_platfom.Prelude.{
  ℕ, ◌+◌, Bool, true, false, ◌&&◌, not, List, [], ◌∷◌, map, ◌≡◌, refl, inl, inr, ◌==◌, any,
  any-eq-false, filter, All, All-map, All-zip, count_where, length, arith, Bool-cases,
}
use kw_awards_voting_platfom.Prelude.Sorting.{Distinct}
use kw_awards_voting_platfom.Exceptions.{ok, err, protected_error}
use kw_awards_voting_platfom.Models.Voting.{Voter, Challenge}
use kw_awards_voting_platfom.Models.State.{Db, World}
use kw_awards_voting_platfom.Voting.Voters.{Apart}
use kw_awards_voting_platfom.Voting.Purge.{
  is_protected, count_outcome, delete_all, Counts, without_voter,
}
use kw_awards_voting_platfom.Voting.Purge.Deletions.{
  any-without, delete_candidate_protected, delete_candidate_deletes,
}

abbrev pub is_there : Db → ℕ → Bool
is_there db id = any (λ (v : Voter). v.id == id) db.voters

-- Of candidates that are there, without repetition, the loop deletes those that are not protected and
-- passes over the others.
there_without :
    (db : Db) (id : ℕ) (ids : List ℕ)
    → All (λ j. is_there db j ≡ true) ids
    → any (λ j. id == j) ids ≡ false
    → All (λ j. is_there (without_voter id db) j ≡ true) ids
there_without db id [] h d = tt
there_without db id (j ∷ ids) h d =
    (ground (arith, h.0, any-without id j db.voters), there_without db id ids h.1 (ground arith))

pub delete_all-counts :
    (ids : List ℕ) (c : Counts) (w : World)
    → Distinct ids
    → All (λ j. is_there w.db j ≡ true) ids
    → let counts = (delete_all ids c w).0 in
      (counts.deleted ≡ c.deleted + count_where (λ j. not (is_protected w.db j)) ids)
      × (counts.skipped_protected ≡ c.skipped_protected + count_where (is_protected w.db) ids)
unfolding delete_all count_outcome is_protected
delete_all-counts [] c w d h = (omega arith, omega arith)
delete_all-counts (id ∷ ids) c w d h = elim (Bool-cases (is_protected w.db id)) [
  | inl kept ↦
      let (deletes, skips) =
        delete_all-counts ids (count_outcome (err protected_error) c) w d.1 h.1 in
      rw (delete_all, delete_candidate_protected id w h.0 kept, kept)
        ((omega (arith, deletes), omega (arith, skips)))
  | inr free ↦
      let gone = count_where (λ (x : Challenge). x.voter == id) w.db.challenges in
      let (deletes, skips) =
        delete_all-counts ids (count_outcome (ok gone) c) (record w { db = without_voter id w.db })
          d.1 (there_without w.db id ids h.1 d.0) in
      rw (delete_all, delete_candidate_deletes id w h.0 free, free)
        ((omega (arith, deletes), omega (arith, skips)))
]

-- The identifiers of the rows that pass a test.
module _ (p : Voter → Bool) where
  abbrev pub ids_of : List Voter → List ℕ
  ids_of voters = map (λ (v : Voter). v.id) (filter p voters)

  absent-ids_of :
      (id : ℕ) (voters : List Voter)
      → any (λ (x : Voter). id == x.id) voters ≡ false
      → any (λ j. id == j) (ids_of voters) ≡ false
  absent-ids_of id [] h = refl
  absent-ids_of id (x ∷ voters) h = ground (arith, absent-ids_of id voters)

  pub Distinct-ids_of : (voters : List Voter) → Apart voters → Distinct (ids_of voters)
  Distinct-ids_of [] h = tt
  Distinct-ids_of (x ∷ voters) h = elim (Bool-cases (p x)) [
    | inl t ↦ rw t (absent-ids_of x.id voters h.0, Distinct-ids_of voters h.1)
    | inr f ↦ rw f (Distinct-ids_of voters h.1)
  ]

  pub member-ids_of :
      (voters : List Voter)
      → Apart voters
      → All (λ (v : Voter). any (λ j. v.id == j) (ids_of voters) ≡ p v) voters
  member-ids_of [] h = tt
  member-ids_of (x ∷ voters) h = (
    ground (arith, absent-ids_of x.id voters h.0),
    All-map _ _ voters (λ v (other, ih). ground (arith, other, ih))
        (All-zip (λ (v : Voter). (x.id == v.id) ≡ false) _ voters
          (any-eq-false (λ (v : Voter). x.id == v.id) voters h.0) (member-ids_of voters h.1)),
  )

  pub there-ids_of :
      (db : Db) (voters : List Voter)
      → All (λ (v : Voter). is_there db v.id ≡ true) voters
      → All (λ j. is_there db j ≡ true) (ids_of voters)
  there-ids_of db [] h = tt
  there-ids_of db (x ∷ voters) h = elim (Bool-cases (p x)) [
    | inl t ↦ rw t (h.0, there-ids_of db voters h.1)
    | inr f ↦ rw f (there-ids_of db voters h.1)
  ]

  pub count-ids_of :
      (q : ℕ → Bool) (voters : List Voter)
      → count_where q (ids_of voters) ≡ count_where (λ (v : Voter). p v && q v.id) voters
  count-ids_of q [] = refl
  count-ids_of q (x ∷ voters) = ground (arith, count-ids_of q voters)

pub all_there :
    (voters : List Voter)
    → All (λ (v : Voter). any (λ (x : Voter). x.id == v.id) voters ≡ true) voters
all_there [] = tt
all_there (x ∷ voters) =
    (ground arith, All-map _ _ voters (λ v h. ground (arith, h)) (all_there voters))

pub count_where-not :
    (q : ℕ → Bool) (ids : List ℕ)
    → count_where (λ j. not (q j)) ids + count_where q ids ≡ length ids
count_where-not q [] = refl
count_where-not q (x ∷ ids) = ground (arith, count_where-not q ids)
