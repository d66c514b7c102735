-- ===== src/Voting/Table/Sound.antt =====
-- The invariant of the table of votes: every row passes its check constraints and no two rows clash.
use kw_awards_voting_platfom.Prelude.{
  ℕ, ◌≤◌, Bool, true, false, ◌&&◌, not, Option, none, some, List, [], ◌∷◌, ◌≡◌, refl, inl, inr,
  ◌==◌, any, All, update_where, count_where, All-update_where, arith, if◌then◌else◌, Bool-cases,
}
use kw_awards_voting_platfom.Models.Voting.{Vote, vote_checks, vote_clash, is_indexed}
use kw_awards_voting_platfom.Models.State.{World}
use kw_awards_voting_platfom.Voting.Table.{
  find_vote, put_votes, insert_vote, VoteField, write_columns, trigger_allows, update_row,
  update_found, save_vote, may_change, clashes_with_other,
}

abbrev pub NoClash : List Vote → Type 0
NoClash [] = Unit
NoClash (v ∷ vs) = (any (vote_clash v) vs ≡ false) × NoClash vs

pub record IsSound (votes : List Vote) : Type 0 where
  pub checked : All (λ v. vote_checks v ≡ true) votes
  pub apart : NoClash votes

-- A voter's active free votes in an award.
abbrev pub in_slot : ℕ → ℕ → Vote → Bool
in_slot voter award v = is_indexed v && (v.voter == voter && v.award == award)

-- Beside a row of the slot there is no second one.
slot_alone :
    (voter award : ℕ) (v : Vote) (vs : List Vote)
    → in_slot voter award v ≡ true
    → any (vote_clash v) vs ≡ false
    → count_where (in_slot voter award) vs ≡ 0
slot_alone voter award v [] h c = refl
slot_alone voter award v (x ∷ vs) h c = ground (arith, slot_alone voter award v vs h)

-- In a sound table a voter has at most one active free vote in an award.
pub one_vote :
    (voter award : ℕ) (votes : List Vote)
    → NoClash votes
    → count_where (in_slot voter award) votes ≤ 1
one_vote voter award [] h = omega arith
one_vote voter award (v ∷ votes) h = elim (Bool-cases (in_slot voter award v)) [
  | inl taken ↦ rw taken (omega (arith, slot_alone voter award v votes taken h.0))
  | inr free ↦ rw free (omega (arith, one_vote voter award votes h.1))
]

clash_comm : (a b : Vote) → vote_clash a b ≡ vote_clash b a
clash_comm a b = ground arith

-- What `put` leaves of a table: rows with the identifier of `new` become `new`.
unfoldable pub replaced : Vote → List Vote → List Vote
replaced new = update_where (λ (v : Vote). v.id == new.id) (λ _. new)

-- The rows beside a row with the same identifier are left alone.
pub replaced_same :
    (new x : Vote) (rows : List Vote)
    → (x.id == new.id) ≡ true
    → any (vote_clash x) rows ≡ false
    → replaced new rows ≡ rows
unfolding replaced
replaced_same new x [] e c = refl
replaced_same new x (y ∷ rows) e c = ground (arith, replaced_same new x rows e)

others_apart :
    (new x : Vote) (rows : List Vote)
    → (x.id == new.id) ≡ true
    → any (vote_clash x) rows ≡ false
    → any (clashes_with_other new) rows ≡ false
    → any (vote_clash new) rows ≡ false
others_apart new x [] e c o = refl
others_apart new x (y ∷ rows) e c o = ground (arith, others_apart new x rows e)

apart_after :
    (new x : Vote) (rows : List Vote)
    → (x.id == new.id) ≡ false
    → any (vote_clash x) rows ≡ false
    → vote_clash x new ≡ false
    → any (vote_clash x) (replaced new rows) ≡ false
unfolding replaced
apart_after new x [] e c n = refl
apart_after new x (y ∷ rows) e c n = ground (arith, apart_after new x rows e)

head_apart :
    (new x : Vote) (rows : List Vote)
    → any (vote_clash x) rows ≡ false
    → any (clashes_with_other new) (x ∷ rows) ≡ false
    → any (vote_clash (if x.id == new.id then new else x)) (replaced new rows) ≡ false
head_apart new x rows h o = elim (Bool-cases (x.id == new.id)) [
  | inl e ↦ rw (e, replaced_same new x rows e h) (others_apart new x rows e h (ground arith))
  | inr e ↦ rw e (apart_after new x rows e h (ground (arith, clash_comm x new)))
]

-- Replacing a row by one that clashes with no other row keeps the rows apart.
NoClash-replaced :
    (new : Vote) (rows : List Vote)
    → NoClash rows
    → any (clashes_with_other new) rows ≡ false
    → NoClash (replaced new rows)
unfolding replaced
NoClash-replaced new [] h o = tt
NoClash-replaced new (x ∷ rows) h o =
    (head_apart new x rows h.0 o, NoClash-replaced new rows h.1 (ground arith))

checked-replaced :
    (new : Vote) (rows : List Vote)
    → All (λ v. vote_checks v ≡ true) rows
    → vote_checks new ≡ true
    → All (λ v. vote_checks v ≡ true) (replaced new rows)
unfolding replaced
checked-replaced new rows h c =
    All-update_where (λ v. vote_checks v ≡ true) _ (λ _. new) rows (λ x _ _. c) h

abbrev votes_of {ℓ} : {A : Type ℓ} → A × World → List Vote
votes_of (a, w) = w.db.votes

-- Whatever row an INSERT brings, the table stays sound.
pub insert_vote-IsSound :
    (v : Vote) (w : World) → IsSound w.db.votes → IsSound (insert_vote v w).1.db.votes
unfolding insert_vote put_votes
insert_vote-IsSound v w h = elim (Bool-cases (vote_checks v)) [
  | inr bad ↦ rw bad h
  | inl good ↦ elim (Bool-cases (any (vote_clash v) w.db.votes)) [
    | inl clash ↦ rw (good, clash) h
    | inr free ↦ rw (good, free) (record { checked = (good, h.checked); apart = (free, h.apart) })
  ]
]

trigger_id : (old new : Vote) → trigger_allows old new ≡ true → old.id ≡ new.id
unfolding trigger_allows
trigger_id old new h = ground arith

update_row-IsSound :
    (old new : Vote) (w : World) → IsSound w.db.votes → IsSound (update_row old new w).1.db.votes
unfolding update_row put_votes
update_row-IsSound old new w h = elim (Bool-cases (trigger_allows old new)) [
  | inr no_trigger ↦ rw no_trigger h
  | inl fine ↦ elim (Bool-cases (vote_checks new)) [
    | inr bad ↦ rw (fine, bad) h
    | inl good ↦ elim (Bool-cases (any (clashes_with_other new) w.db.votes)) [
      | inl clash ↦ rw (fine, good, clash) h
      | inr free ↦
          rw (fine, good, free, trigger_id old new fine)
            (record {
              checked = unfold replaced in checked-replaced new w.db.votes h.checked good;
              apart = unfold replaced in NoClash-replaced new w.db.votes h.apart free;
            })
    ]
  ]
]

update_found-IsSound :
    (fields : List VoteField) (v : Vote) (o : Option Vote) (w : World)
    → IsSound w.db.votes
    → IsSound (update_found fields v o w).1.db.votes
unfolding update_found
update_found-IsSound fields v none w h = h
update_found-IsSound fields v (some row) w h =
    update_row-IsSound row (write_columns v fields row) w h

-- So it does under every save of a stored vote, whatever columns it names.
pub save_vote-IsSound :
    (fields : List VoteField) (v : Vote) (w : World)
    → IsSound w.db.votes
    → IsSound (save_vote fields v w).1.db.votes
unfolding save_vote
save_vote-IsSound [] v w h = h
save_vote-IsSound (f ∷ fields) v w h =
    elim (Bool-cases (any (λ g. not (may_change g)) (f ∷ fields))) [
      | inl refused ↦ rw refused h
      | inr fine ↦ rw fine (update_found-IsSound (f ∷ fields) v (find_vote v.id w.db) w h)
    ]
