-- ===== src/Voting/Results/Tallies.antt =====
-- The grouped totals are sums over the table of votes, and how casting and voiding move them.
use kw_awards_voting_platfom.Prelude.{
  ℕ, ◌+◌, Bool, true, false, ◌&&◌, Option, some, List, [], ◌∷◌, ◌≡◌, refl, sym, inl, inr, ◌==◌,
  ==_iff, any, find?, find?-sound, update_where, sum_where, count_where, arith, if◌then◌else◌,
  Bool-cases, is_some, is_empty, Text,
}
use mathlib.Core.Path.{subst}
use mathlib.Core.Option.{some-injective}
use kw_awards_voting_platfom.Models.Events.{voting_is_open}
use kw_awards_voting_platfom.Models.Voting.{Vote, is_active_vote}
use kw_awards_voting_platfom.Models.State.{World, Env, Request}
use kw_awards_voting_platfom.Audit.{add_entry}
use kw_awards_voting_platfom.Voting.Table.{find_vote, put_votes}
use kw_awards_voting_platfom.Voting.Table.Sound.{IsSound, NoClash, in_slot, replaced, replaced_same}
use kw_awards_voting_platfom.Voting.Services.{
  find_votable, new_vote, cast_free_vote, void_vote, voided,
}
use kw_awards_voting_platfom.Voting.Services.Casting.{Found, cast_free_vote-recorded}
use kw_awards_voting_platfom.Voting.Services.Voiding.{void_vote_succeeds}
use kw_awards_voting_platfom.Voting.Results.{Totals, add_total, totals_by_nomination, get_total}

get_total-add_total :
    (k j q : ℕ) (t : Totals)
    → get_total k (add_total j q t) ≡ get_total k t + (if j == k then q else 0)
unfolding get_total add_total
get_total-add_total k j q [] = ground arith
get_total-add_total k j q ((i, x) ∷ t) = ground (arith, get_total-add_total k j q t)

-- The active votes for a nomination that pass the filter.
abbrev pub counts_for : (Vote → Bool) → ℕ → Vote → Bool
counts_for filters k v = (is_active_vote v && filters v) && v.nomination == k

-- What the dictionary of totals gives for a nomination, 0 where it has no entry, is the sum of the
-- quantities of its active votes that pass the filter.
pub get_total-totals_by_nomination :
    (filters : Vote → Bool) (k : ℕ) (votes : List Vote)
    → get_total k (totals_by_nomination filters votes)
      ≡ sum_where (counts_for filters k) (λ v. v.quantity) votes
unfolding totals_by_nomination
get_total-totals_by_nomination filters k [] = unfold get_total in refl
get_total-totals_by_nomination filters k (v ∷ votes) =
    let ih = get_total-totals_by_nomination filters k votes in
    let step = get_total-add_total k v.nomination v.quantity (totals_by_nomination filters votes) in
    ground arith

-- The total of a nomination under a filter.
abbrev pub total_of : (Vote → Bool) → ℕ → World → ℕ
total_of filters k w = get_total k (totals_by_nomination filters w.db.votes)

-- For a votable nomination, while voting is open, with a new identifier and an empty slot: the vote
-- raises the total of its nomination by one, under every filter that it passes, and moves no
-- other total.
pub total_of-cast_free_vote :
    (env : Env) (r : Request) (voter nomination_id : ℕ) (w : World) (f : Found)
    (filters : Vote → Bool) (k : ℕ)
    → find_votable nomination_id w.db ≡ some f
    → voting_is_open f.2 r.now ≡ true
    → any (λ (v : Vote). r.uuid == v.id) w.db.votes ≡ false
    → count_where (in_slot voter f.1.id) w.db.votes ≡ 0
    → total_of filters k (cast_free_vote env r voter nomination_id w).1
      ≡ total_of filters k w + (if filters (new_vote env r voter f) && f.0.id == k then 1 else 0)
total_of-cast_free_vote env r voter nomination_id w f filters k found is_open new free =
    rw (cast_free_vote-recorded env r voter nomination_id w f found is_open new free) (
      unfold add_entry put_votes new_vote in
      rw get_total-totals_by_nomination (rw get_total-totals_by_nomination (ground arith)))

-- Replacing the one row with an identifier by a row that is not counted takes its part from a sum.
sum_where-replaced :
    (p : Vote → Bool) (new old : Vote) (rows : List Vote)
    → p new ≡ false
    → NoClash rows
    → find? (λ (x : Vote). x.id == new.id) rows ≡ some old
    → sum_where p (λ v. v.quantity) (replaced new rows) + (if p old then old.quantity else 0)
      ≡ sum_where p (λ v. v.quantity) rows
unfolding replaced
sum_where-replaced p new old [] q h f = absurd (ground arith)
sum_where-replaced p new old (x ∷ rows) q h f = elim (Bool-cases (x.id == new.id)) [
  | inl e ↦ rw e (
      rw (replaced_same new x rows e h.0)
        (rw (sym (some-injective x old (rw e at f))) (ground arith)))
  | inr e ↦ rw e (omega (arith, sum_where-replaced p new old rows q h.1 (rw e at f)))
]

sum_where-voided :
    (now id by : ℕ) (reason : Text) (filters : Vote → Bool) (k : ℕ) (v : Vote) (rows : List Vote)
    → find? (λ (x : Vote). x.id == id) rows ≡ some v
    → is_some v.voided_at ≡ false
    → NoClash rows
    → sum_where
          (counts_for filters k)
          (λ x. x.quantity)
          (update_where (λ (x : Vote). x.id == id) (λ _. voided now by reason v) rows)
        + (if filters v && v.nomination == k then v.quantity else 0)
      ≡ sum_where (counts_for filters k) (λ x. x.quantity) rows
unfolding replaced
sum_where-voided now id by reason filters k v rows found active apart =
    let e : v.id ≡ id = (==_iff v.id id).0 (find?-sound (λ (x : Vote). x.id == id) rows v found) in
    let found' = subst (λ i. find? (λ (x : Vote). x.id == i) rows ≡ some v) (sym e) found in
    let base =
      sum_where-replaced (counts_for filters k) (voided now by reason v) v rows refl apart found' in
    subst
      (λ i.
        sum_where (counts_for filters k) (λ x. x.quantity)
            (update_where (λ (x : Vote). x.id == i) (λ _. voided now by reason v) rows)
          + (if filters v && v.nomination == k then v.quantity else 0)
        ≡ sum_where (counts_for filters k) (λ x. x.quantity) rows)
      e (ground (arith, base))

-- In a sound table, voiding an active vote with a reason lowers the total of its nomination by the
-- vote's quantity, under every filter that the vote passes, and moves no other total.
pub total_of-void_vote :
    (env : Env) (now : ℕ) (req : Option Request) (id by : ℕ) (reason : Text) (w : World) (v : Vote)
    (filters : Vote → Bool) (k : ℕ)
    → find_vote id w.db ≡ some v
    → is_some v.voided_at ≡ false
    → is_empty reason ≡ false
    → IsSound w.db.votes
    → total_of filters k (void_vote env now req id by reason w).1
        + (if filters v && v.nomination == k then v.quantity else 0)
      ≡ total_of filters k w
unfolding find_vote
total_of-void_vote env now req id by reason w v filters k found active reasoned sound =
    rw (void_vote_succeeds env now req id by reason w v found active reasoned sound) (
      unfold add_entry put_votes in
      rw get_total-totals_by_nomination (
        rw get_total-totals_by_nomination
          (sum_where-voided now id by reason filters k v w.db.votes found active sound.apart)))
