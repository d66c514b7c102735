-- ===== src/Voting/Table/History.antt =====
-- The table of votes is append-only: what any INSERT or UPDATE leaves of the votes before it.
use kw_awards_voting_platfom.Prelude.{
  ℕ, true, false, Option, none, some, List, [], ◌∷◌, ◌≡◌, refl, ◌∙◌, inl, inr, ◌==◌, find?, any,
  update_where, is_some, arith, Bool-cases, text_eq→eq, Text, ap, sym, not, find?-sound, ==_iff,
}
use mathlib.Core.Path.{subst}
use mathlib.Core.Option.{some-injective}
use kw_awards_voting_platfom.Models.Voting.{Vote, VoteSource, vote_checks, vote_clash}
use kw_awards_voting_platfom.Models.State.{World}
use kw_awards_voting_platfom.Voting.Table.{
  find_vote, put_votes, insert_vote, VoteField, write_columns, trigger_allows, update_row,
  update_found, save_vote, clashes_with_other, may_change, same_text, same_source,
}
use kw_awards_voting_platfom.Voting.Table.Sound.{NoClash}

-- A vote as it was cast, with the voiding columns left out.
abbrev pub as_cast : Vote → Vote
as_cast v = record v { voided_at = none; voided_by = none; void_reason = [] }

-- What may become of a vote: it stays as it was cast, and once it is voided it stays as it is.
pub record Later (old new : Vote) : Type 0 where
  pub cast : as_cast new ≡ as_cast old
  pub final : is_some old.voided_at ≡ true → new ≡ old

-- What may become of a table: each vote is still there, later, and there may be new votes.
pub data Grown : List Vote → List Vote → Type 0 where
  none_left : Grown [] []
  added : (v : Vote) {old new : List Vote} → Grown old new → Grown old (v ∷ new)
  kept :
      {v v' : Vote} {old new : List Vote} → Later v v' → Grown old new → Grown (v ∷ old) (v' ∷ new)

pub Later-refl : (v : Vote) → Later v v
Later-refl v = record { cast = refl; final = λ _. refl }

pub Later-trans : (a b c : Vote) → Later a b → Later b c → Later a c
Later-trans a b c h k = record {
  cast = k.cast ∙ h.cast;
  final = λ v. k.final (rw (h.final v) v) ∙ h.final v;
}

pub Grown-refl : (votes : List Vote) → Grown votes votes
Grown-refl [] = none_left
Grown-refl (v ∷ votes) = kept (Later-refl v) (Grown-refl votes)

pub Grown-trans : {a b c : List Vote} → Grown a b → Grown b c → Grown a c
Grown-trans g none_left = g
Grown-trans g (added v h) = added v (Grown-trans g h)
Grown-trans (added v g) (kept l h) = added _ (Grown-trans g h)
Grown-trans (kept k g) (kept l h) = kept (Later-trans _ _ _ k l) (Grown-trans g h)

same_source→eq : (a b : VoteSource) → same_source a b ≡ true → a ≡ b
same_source→eq a b h = ground arith

same_text→eq : (a b : Option Text) → same_text a b ≡ true → a ≡ b
same_text→eq none none h = refl
same_text→eq (some a) (some b) h = ap some (text_eq→eq a b h)
same_text→eq none (some b) h = cc
same_text→eq (some a) none h = cc

trigger-Later : (old new : Vote) → trigger_allows old new ≡ true → Later old new
unfolding trigger_allows
trigger-Later old new h = record {
  cast = ground (
    arith,
    same_source→eq old.source new.source,
    same_text→eq old.ip_address new.ip_address,
    text_eq→eq old.user_agent new.user_agent,
  );
  final = λ v. ground (
    arith,
    same_source→eq old.source new.source,
    same_text→eq old.ip_address new.ip_address,
    text_eq→eq old.user_agent new.user_agent,
    text_eq→eq old.void_reason new.void_reason,
  );
}

-- With the identifier of a row that stands apart from the rest, none of the rest is replaced.
untouched :
    (id : ℕ) (new x : Vote) (rows : List Vote)
    → (x.id == id) ≡ true
    → any (vote_clash x) rows ≡ false
    → Grown rows (update_where (λ (v : Vote). v.id == id) (λ _. new) rows)
untouched id new x [] e c = none_left
untouched id new x (y ∷ rows) e c =
    rw (ne) (kept (Later-refl y) (untouched id new x rows e (ground arith)))
  where
    ne : (y.id == id) ≡ false
    ne = ground arith

-- The first row with an identifier is the only one that is replaced.
replaced-Grown :
    (id : ℕ) (old new : Vote) (rows : List Vote)
    → NoClash rows
    → find? (λ (v : Vote). v.id == id) rows ≡ some old
    → Later old new
    → Grown rows (update_where (λ (v : Vote). v.id == id) (λ _. new) rows)
replaced-Grown id old new [] h f l = none_left
replaced-Grown id old new (x ∷ rows) h f l = elim (Bool-cases (x.id == id)) [
  | inl e ↦ rw e (
      kept (subst (λ v. Later v new) (sym (some-injective x old (rw e at f))) l)
        (untouched id new x rows e h.0))
  | inr e ↦ rw e (kept (Later-refl x) (replaced-Grown id old new rows h.1 (rw e at f) l))
]

-- An INSERT adds a vote or nothing.
pub insert_vote-Grown : (v : Vote) (w : World) → Grown w.db.votes (insert_vote v w).1.db.votes
unfolding insert_vote put_votes
insert_vote-Grown v w = elim (Bool-cases (vote_checks v)) [
  | inr bad ↦ rw bad (Grown-refl _)
  | inl good ↦ elim (Bool-cases (any (vote_clash v) w.db.votes)) [
    | inl clash ↦ rw (good, clash) (Grown-refl _)
    | inr free ↦ rw (good, free) (added v (Grown-refl _))
  ]
]

update_row-Grown :
    (id : ℕ) (old new : Vote) (w : World)
    → NoClash w.db.votes
    → find? (λ (v : Vote). v.id == id) w.db.votes ≡ some old
    → old.id ≡ id
    → Grown w.db.votes (update_row old new w).1.db.votes
unfolding update_row put_votes
update_row-Grown id old new w h f i = elim (Bool-cases (trigger_allows old new)) [
  | inr no_trigger ↦ rw no_trigger (Grown-refl _)
  | inl fine ↦ elim (Bool-cases (vote_checks new)) [
    | inr bad ↦ rw (fine, bad) (Grown-refl _)
    | inl good ↦ elim (Bool-cases (any (clashes_with_other new) w.db.votes)) [
      | inl clash ↦ rw (fine, good, clash) (Grown-refl _)
      | inr free ↦
          rw (fine, good, free, i)
            (replaced-Grown id old new w.db.votes h f (trigger-Later old new fine))
    ]
  ]
]

update_found-Grown :
    (fields : List VoteField) (v : Vote) (o : Option Vote) (w : World)
    → NoClash w.db.votes
    → find_vote v.id w.db ≡ o
    → Grown w.db.votes (update_found fields v o w).1.db.votes
unfolding update_found find_vote
update_found-Grown fields v none w h f = Grown-refl _
update_found-Grown fields v (some row) w h f =
    update_row-Grown v.id row (write_columns v fields row) w h f
      ((==_iff row.id v.id).0 (find?-sound (λ (x : Vote). x.id == v.id) w.db.votes row f))

-- A save of a stored vote leaves every vote as it was cast, and a voided vote as it is.
pub save_vote-Grown :
    (fields : List VoteField) (v : Vote) (w : World)
    → NoClash w.db.votes
    → Grown w.db.votes (save_vote fields v w).1.db.votes
unfolding save_vote
save_vote-Grown [] v w h = Grown-refl _
save_vote-Grown (f ∷ fields) v w h =
    elim (Bool-cases (any (λ g. not (may_change g)) (f ∷ fields))) [
      | inl refused ↦ rw refused (Grown-refl _)
      | inr fine ↦ rw fine (update_found-Grown (f ∷ fields) v (find_vote v.id w.db) w h refl)
    ]
