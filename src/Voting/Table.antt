-- ===== src/Voting/Table.antt =====
-- The table of votes as voting/models.py and the trigger of the migrations guard it: what an INSERT
-- and an UPDATE do, and the tests that refuse them.
pub mod Sound
pub mod History
use kw_awards_voting_platfom.Prelude.{
  ℕ, Bool, true, false, ◌&&◌, ◌||◌, not, Option, none, some, List, [], ◌∷◌, ◌==◌, find?, any,
  update_where, is_none, is_some, Text, text_eq, if◌then◌else◌,
}
use kw_awards_voting_platfom.Exceptions.{
  ok, err, append_only, does_not_exist, integrity, unique, check, append_only_trigger,
}
use kw_awards_voting_platfom.Exec.{⊤, Action}
use kw_awards_voting_platfom.Models.Voting.{
  Vote, VoteSource, is_free, vote_checks, vote_clash, is_active_vote,
}
use kw_awards_voting_platfom.Models.State.{Db, World}

unfoldable pub find_vote : ℕ → Db → Option Vote
find_vote pk db = find? (λ (v : Vote). v.id == pk) db.votes

unfoldable pub put_votes : List Vote → World → World
put_votes rows w = record w { db = record w.db { votes = rows } }

-- `Vote.objects.create(...)`: the check constraints, then the primary key and the partial index.
unfoldable pub insert_vote : Vote → Action Vote
insert_vote v w =
    if not (vote_checks v)
    then (err (integrity check), w)
    else if any (vote_clash v) w.db.votes
    then (err (integrity unique), w)
    else (ok v, put_votes (v ∷ w.db.votes) w)

-- The columns that an UPDATE of a vote can name.
pub data VoteField : Type 0 where
  event award nomination voter source quantity payment ip_address user_agent : VoteField
  created_at : VoteField
  voided_at voided_by void_reason updated_at : VoteField

-- `_IMMUTABLE_ON_UPDATE`, in spite of its name the columns that may change.
abbrev pub may_change : VoteField → Bool
may_change VoteField.voided_at = true
may_change VoteField.voided_by = true
may_change VoteField.void_reason = true
may_change VoteField.updated_at = true
may_change _ = false

-- One column of `v` written into a stored row. `updated_at` is not modelled.
abbrev write_column : Vote → VoteField → Vote → Vote
write_column v VoteField.event row = record row { event = v.event }
write_column v VoteField.award row = record row { award = v.award }
write_column v VoteField.nomination row = record row { nomination = v.nomination }
write_column v VoteField.voter row = record row { voter = v.voter }
write_column v VoteField.source row = record row { source = v.source }
write_column v VoteField.quantity row = record row { quantity = v.quantity }
write_column v VoteField.payment row = record row { payment = v.payment }
write_column v VoteField.ip_address row = record row { ip_address = v.ip_address }
write_column v VoteField.user_agent row = record row { user_agent = v.user_agent }
write_column v VoteField.created_at row = record row { created_at = v.created_at }
write_column v VoteField.voided_at row = record row { voided_at = v.voided_at }
write_column v VoteField.voided_by row = record row { voided_by = v.voided_by }
write_column v VoteField.void_reason row = record row { void_reason = v.void_reason }
write_column v VoteField.updated_at row = row

unfoldable pub write_columns : Vote → List VoteField → Vote → Vote
write_columns v [] row = row
write_columns v (f ∷ fields) row = write_columns v fields (write_column v f row)

-- SQL's `IS NOT DISTINCT FROM`.
abbrev pub same_num : Option ℕ → Option ℕ → Bool
same_num none none = true
same_num (some a) (some b) = a == b
same_num _ _ = false

abbrev pub same_text : Option Text → Option Text → Bool
same_text none none = true
same_text (some a) (some b) = text_eq a b
same_text _ _ = false

abbrev pub same_source : VoteSource → VoteSource → Bool
same_source VoteSource.free VoteSource.free = true
same_source VoteSource.paid VoteSource.paid = true
same_source _ _ = false

-- The trigger `voting_vote_append_only` on an UPDATE of the row `old` to `new`.
unfoldable pub trigger_allows : Vote → Vote → Bool
trigger_allows old new =
    (old.id == new.id
      && (old.event == new.event
          && (old.award == new.award
              && (old.nomination == new.nomination
                  && (old.voter == new.voter
                      && (same_source old.source new.source
                          && (old.quantity == new.quantity
                              && (same_num old.payment new.payment
                                  && (same_text old.ip_address new.ip_address
                                      && (text_eq old.user_agent new.user_agent
                                          && old.created_at == new.created_at))))))))))
    && (is_none old.voided_at
        || (same_num old.voided_at new.voided_at
            && (text_eq old.void_reason new.void_reason && same_num old.voided_by new.voided_by)))

-- A row other than the one that is updated, which the new row may not stand beside.
abbrev pub clashes_with_other : Vote → Vote → Bool
clashes_with_other new row = not (row.id == new.id) && vote_clash new row

-- `UPDATE ... WHERE id = old.id`, on the stored row `old`.
unfoldable pub update_row : Vote → Vote → Action ⊤
update_row old new w =
    if not (trigger_allows old new)
    then (err (integrity append_only_trigger), w)
    else if not (vote_checks new)
    then (err (integrity check), w)
    else if any (clashes_with_other new) w.db.votes
    then (err (integrity unique), w)
    else (ok tt, put_votes (update_where (λ (v : Vote). v.id == old.id) (λ _. new) w.db.votes) w)

update_found : List VoteField → Vote → Option Vote → Action ⊤
unfolding update_row
update_found fields v none w = (err does_not_exist, w)
update_found fields v (some row) w = update_row row (write_columns v fields row) w

-- `Vote.save(update_fields=fields)` on a vote that is already stored. No list, or an empty one, means
-- every column.
unfoldable pub save_vote : List VoteField → Vote → Action ⊤
unfolding update_found
save_vote [] v w = (err append_only, w)
save_vote (f ∷ fields) v w =
    if any (λ g. not (may_change g)) (f ∷ fields)
    then (err append_only, w)
    else update_found (f ∷ fields) v (find_vote v.id w.db) w

-- `Vote.delete` and `VoteQuerySet.delete`
unfoldable pub delete_vote : Vote → Action ⊤
delete_vote v w = (err append_only, w)

-- `VoteQuerySet.update(**kwargs)` is refused when it names a column that may not change.
unfoldable pub queryset_update_allowed : List VoteField → Bool
queryset_update_allowed fields = not (any (λ g. not (may_change g)) fields)
