-- ===== src/Nominations/Review.antt =====
-- A nomination is reviewed once.
use kw_awards_voting_platfom.Prelude.{
  ℕ, Bool, true, false, ◌||◌, not, Option, some, List, [], ◌∷◌, Text, ◌==◌, ◌≡◌, refl, inl, inr,
  arith, is_empty, find?, update_where, Bool-cases,
}
use kw_awards_voting_platfom.Exceptions.{ok, err, api, already_reviewed, integrity, check}
use kw_awards_voting_platfom.Models.Nominations.{Nomination, pending, nstatus_eq, nomination_checks}
use kw_awards_voting_platfom.Models.State.{World, Env, Request}
use kw_awards_voting_platfom.Audit.{has_forbidden, is_forbidden, entry_row, add_entry}
use kw_awards_voting_platfom.Audit.Laws.{log_clean}
use kw_awards_voting_platfom.Nominations.{
  find_nomination, reviewed, save_review, review_entry, review_metadata, review_nomination,
}

review_clean :
    (approve : Bool) (reason : Text) (n : Nomination)
    → has_forbidden (review_metadata approve reason n) ≡ false
unfolding has_forbidden is_forbidden
review_clean true reason n = refl
review_clean false reason n = refl

-- The world after a review.
unfoldable pub after_review :
    Env → ℕ → Option Request → Bool → ℕ → Text → Nomination → World → World
after_review env now req approve reviewer reason n w =
    add_entry (entry_row env now req (review_entry approve reviewer reason n)) (record w {
      db = record w.db {
        nominations =
            update_where (λ (x : Nomination). x.id == n.id)
              (λ _. reviewed approve now reviewer reason n) w.db.nominations;
      };
    })

found_reviewed :
    (pk : ℕ) (rows : List Nomination) (n m : Nomination)
    → find? (λ (x : Nomination). x.id == pk) rows ≡ some n
    → m.id ≡ n.id
    → find?
        (λ (x : Nomination). x.id == pk)
        (update_where (λ (x : Nomination). x.id == n.id) (λ _. m) rows)
      ≡ some m
found_reviewed pk [] n m h e = absurd (ground arith)
found_reviewed pk (x ∷ rows) n m h e = ground (arith, found_reviewed pk rows n m)

not_pending :
    (approve : Bool) (now reviewer : ℕ) (reason : Text) (n : Nomination)
    → nstatus_eq (reviewed approve now reviewer reason n).status pending ≡ false
unfolding reviewed
not_pending approve now reviewer reason n = ground arith

same_id :
    (approve : Bool) (now reviewer : ℕ) (reason : Text) (n : Nomination)
    → (reviewed approve now reviewer reason n).id ≡ n.id
unfolding reviewed
same_id approve now reviewer reason n = refl

module _ (env : Env) (now : ℕ) (req : Option Request) (pk : ℕ) (approve : Bool) (reviewer : ℕ)
    (reason : Text) (w : World) (n : Nomination) (found : find_nomination pk w.db ≡ some n) where
  -- A pending nomination is approved, or rejected with a reason: its row has the decision, the
  -- reviewer and the time, and the audit log has one entry more.
  pub review_nomination_decides :
      n.status ≡ pending
      → (approve || not (is_empty reason)) ≡ true
      → review_nomination env now req pk approve reviewer reason w ≡ (
        ok (reviewed approve now reviewer reason n),
        after_review env now req approve reviewer reason n w,
      )
  unfolding review_nomination save_review reviewed after_review nomination_checks review_entry
  review_nomination_decides p reasoned =
      let w' = record w {
        db = record w.db {
          nominations =
              update_where (λ (x : Nomination). x.id == n.id)
                (λ _. reviewed approve now reviewer reason n) w.db.nominations;
        };
      } in
      let logs =
        log_clean env now req (review_entry approve reviewer reason n) w'
          (review_clean approve reason n) in
      elim (Bool-cases approve) [
        | inl accepts ↦ ground (arith, found)
        | inr rejects ↦ ground (arith, found)
      ]

  -- A nomination that is not pending keeps its decision: the answer is 409, and nothing changes. A
  -- rejection without a reason is refused by the database, and nothing changes either.
  pub review_nomination_refuses :
      (nstatus_eq n.status pending ≡ false
        → review_nomination env now req pk approve reviewer reason w
          ≡ (err (api already_reviewed), w))
      × (n.status ≡ pending
          → (approve || not (is_empty reason)) ≡ false
          → review_nomination env now req pk approve reviewer reason w ≡ (err (integrity check), w))
  unfolding review_nomination save_review reviewed nomination_checks
  review_nomination_refuses = ((λ h. ground arith), (λ p h. ground arith))

  found_after :
      find_nomination pk (after_review env now req approve reviewer reason n w).db
      ≡ some (reviewed approve now reviewer reason n)
  unfolding find_nomination after_review add_entry
  found_after =
      found_reviewed pk w.db.nominations n (reviewed approve now reviewer reason n) found
        (same_id approve now reviewer reason n)

-- After a review of a pending nomination that was approved, or rejected with a reason, a review of
-- the same nomination, whoever asks and whatever was decided, is refused and changes nothing.
pub review_nomination_once :
    (env : Env) (now later : ℕ) (req again : Option Request) (pk : ℕ) (approve change : Bool)
    (reviewer other : ℕ) (reason excuse : Text) (w : World) (n : Nomination)
    → find_nomination pk w.db ≡ some n
    → n.status ≡ pending
    → (approve || not (is_empty reason)) ≡ true
    → let w' = (review_nomination env now req pk approve reviewer reason w).1 in
      review_nomination env later again pk change other excuse w' ≡ (err (api already_reviewed), w')
review_nomination_once env now later req again pk approve change reviewer other reason excuse w n
      found p reasoned =
    rw (review_nomination_decides env now req pk approve reviewer reason w n found p reasoned) (
      (review_nomination_refuses env later again pk change other excuse
          (after_review env now req approve reviewer reason n w)
          (reviewed approve now reviewer reason n)
          (found_after env now req pk approve reviewer reason w n found)).0
        (not_pending approve now reviewer reason n))
