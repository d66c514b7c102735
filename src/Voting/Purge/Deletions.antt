-- ===== src/Voting/Purge/Deletions.antt =====
-- What the command deletes.
use kw_awards_voting_platfom.Prelude.{
  ℕ, Bool, true, false, ◌&&◌, not, List, [], ◌∷◌, ◌≡◌, refl, ap, sym, ◌⊎◌, inl, inr, ◌==◌, ==_iff,
  any, find?-absent, find?-present, filter, filter_cong, filter-filter, All-of, count_where, arith,
  Bool-cases,
}
use kw_awards_voting_platfom.Exceptions.{ok, err, protected_error, does_not_exist}
use kw_awards_voting_platfom.Models.Voting.{Voter, Challenge}
use kw_awards_voting_platfom.Models.State.{Db, World}
use kw_awards_voting_platfom.Voting.Purge.{
  is_protected, delete_candidate, delete_voter, delete_all, Counts, without_voter,
}

-- What one candidate comes to.
module _ (id : ℕ) (w : World) where
  pub delete_candidate_missing :
      any (λ (v : Voter). v.id == id) w.db.voters ≡ false
      → delete_candidate id w ≡ (err does_not_exist, w)
  unfolding delete_candidate
  delete_candidate_missing absent =
      rw (find?-absent (λ (v : Voter). v.id == id) w.db.voters absent) refl

  pub delete_candidate_protected :
      any (λ (v : Voter). v.id == id) w.db.voters ≡ true
      → is_protected w.db id ≡ true
      → delete_candidate id w ≡ (err protected_error, w)
  unfolding delete_candidate delete_voter
  delete_candidate_protected there h =
      let (v, found, same) = find?-present (λ (v : Voter). v.id == id) w.db.voters there in
      rw (found, (==_iff v.id id).0 same, h) refl

  pub delete_candidate_deletes :
      any (λ (v : Voter). v.id == id) w.db.voters ≡ true
      → is_protected w.db id ≡ false
      → delete_candidate id w ≡ (
        ok (count_where (λ (c : Challenge). c.voter == id) w.db.challenges),
        record w { db = without_voter id w.db },
      )
  unfolding delete_candidate delete_voter
  delete_candidate_deletes there h =
      let (v, found, same) = find?-present (λ (v : Voter). v.id == id) w.db.voters there in
      rw (found, (==_iff v.id id).0 same, h) refl

-- Whether the voter of an identifier is there and is not deleted by the loop.
abbrev pub goes : Db → List ℕ → ℕ → Bool
goes db ids id =
    any (λ (v : Voter). v.id == id) db.voters
    && (any (λ j. id == j) ids && not (is_protected db id))

-- The database without the voters that go, and without their challenges.
unfoldable pub purged : List ℕ → Db → Db
purged ids db = record db {
  voters = filter (λ (v : Voter). not (goes db ids v.id)) db.voters;
  challenges = filter (λ (c : Challenge). not (goes db ids c.voter)) db.challenges;
}

-- One more candidate that does not go.
goes_stay :
    (db : Db) (id : ℕ) (ids : List ℕ) (j : ℕ)
    → goes db (id ∷ []) id ≡ false
    → goes db (id ∷ ids) j ≡ goes db ids j
goes_stay db id ids j h = elim (Bool-cases (j == id)) [
  | inl e ↦ rw ((==_iff j id).0 e) (ground arith)
  | inr e ↦ ground arith
]

purged_stay :
    (db : Db) (id : ℕ) (ids : List ℕ)
    → goes db (id ∷ []) id ≡ false
    → purged (id ∷ ids) db ≡ purged ids db
unfolding purged
purged_stay db id ids h =
    rw
      (
        filter_cong (λ (v : Voter). not (goes db (id ∷ ids) v.id)) (λ v. not (goes db ids v.id))
            db.voters (All-of _ db.voters (λ v. ap not (goes_stay db id ids v.id h))),
        filter_cong (λ (c : Challenge). not (goes db (id ∷ ids) c.voter))
            (λ c. not (goes db ids c.voter)) db.challenges
            (All-of _ db.challenges (λ c. ap not (goes_stay db id ids c.voter h))),
      )
      refl

pub any-without :
    (id j : ℕ) (voters : List Voter)
    → any (λ (v : Voter). v.id == j) (filter (λ (v : Voter). not (v.id == id)) voters)
      ≡ any (λ (v : Voter). v.id == j) voters && not (j == id)
any-without id j [] = refl
any-without id j (x ∷ voters) = ground (arith, any-without id j voters)

-- One more candidate that goes: its voter first, then the others.
goes_first :
    (db : Db) (id : ℕ) (ids : List ℕ) (j : ℕ)
    → goes db (id ∷ []) id ≡ true
    → (not (j == id) && not (goes (without_voter id db) ids j)) ≡ not (goes db (id ∷ ids) j)
unfolding is_protected
goes_first db id ids j h = elim (Bool-cases (j == id)) [
  | inl e ↦ rw ((==_iff j id).0 e) (ground arith)
  | inr e ↦ ground (arith, any-without id j db.voters)
]

purged_first :
    (db : Db) (id : ℕ) (ids : List ℕ)
    → goes db (id ∷ []) id ≡ true
    → purged ids (without_voter id db) ≡ purged (id ∷ ids) db
unfolding purged
purged_first db id ids h =
    let first = goes_first db id ids in
    rw
      (
        filter-filter (λ (v : Voter). not (goes (without_voter id db) ids v.id))
            (λ (v : Voter). not (v.id == id)) db.voters,
        filter_cong (λ (v : Voter). not (v.id == id) && not (goes (without_voter id db) ids v.id))
            (λ v. not (goes db (id ∷ ids) v.id)) db.voters (All-of _ db.voters (λ v. first v.id h)),
        filter-filter (λ (c : Challenge). not (goes (without_voter id db) ids c.voter))
            (λ (c : Challenge). not (c.voter == id)) db.challenges,
        filter_cong
            (λ (c : Challenge). not (c.voter == id) && not (goes (without_voter id db) ids c.voter))
            (λ c. not (goes db (id ∷ ids) c.voter)) db.challenges
            (All-of _ db.challenges (λ c. first c.voter h)),
      )
      refl

-- The three outcomes of a candidate, by whether its voter is there and is protected.
goes-cases :
    (id : ℕ) (w : World)
    → ((any (λ (v : Voter). v.id == id) w.db.voters ≡ false)
        ⊎ ((any (λ (v : Voter). v.id == id) w.db.voters ≡ true) × (is_protected w.db id ≡ true)))
      ⊎ ((any (λ (v : Voter). v.id == id) w.db.voters ≡ true) × (is_protected w.db id ≡ false))
goes-cases id w = ground arith

purged-nil : (db : Db) → purged [] db ≡ db
unfolding purged
purged-nil db = rw (keep_all db.voters, keep_challenges db.challenges) refl
  where
    keep_all : (xs : List Voter) → filter (λ (v : Voter). not (goes db [] v.id)) xs ≡ xs
    keep_all [] = refl
    keep_all (x ∷ xs) = ground (arith, keep_all xs)

    keep_challenges :
        (xs : List Challenge) → filter (λ (c : Challenge). not (goes db [] c.voter)) xs ≡ xs
    keep_challenges [] = refl
    keep_challenges (x ∷ xs) = ground (arith, keep_challenges xs)

-- The loop, whatever the list of identifiers: the voters that are there and that no vote, payment or
-- audit entry refers to are deleted, with their challenges, and nothing else changes.
pub delete_all-purged :
    (ids : List ℕ) (c : Counts) (w : World)
    → (delete_all ids c w).1 ≡ record w { db = purged ids w.db }
unfolding delete_all
delete_all-purged [] c w = rw (purged-nil w.db) refl
delete_all-purged (id ∷ ids) c w = elim (goes-cases id w) [
  | inl (inl absent) ↦
      rw (delete_all, delete_candidate_missing id w absent, purged_stay w.db id ids (ground arith))
        (delete_all-purged ids _ w)
  | inl (inr (there, kept)) ↦
      rw
        (
          delete_all,
          delete_candidate_protected id w there kept,
          purged_stay w.db id ids (ground arith),
        )
        (delete_all-purged ids _ w)
  | inr (there, free) ↦
      rw
        (
          delete_all,
          delete_candidate_deletes id w there free,
          sym (purged_first w.db id ids (ground arith)),
        )
        (delete_all-purged ids _ (record w { db = without_voter id w.db }))
]
