-- ===== src/Voting/Purge.antt =====
-- voting/management/commands/purge_unverified_voters.py: the command that deletes voters who asked for a
-- code once and never verified it.
pub mod Deletions
pub mod Reporting
pub mod Command
use kw_awards_voting_platfom.Prelude.{
  ℕ, ◌+◌, ◌-◌, ◌*◌, Bool, true, false, ◌&&◌, ◌||◌, not, Option, none, some, List, [], ◌∷◌, map,
  ◌==◌, ltb, leb, opt_eq, is_none, is_some, any, find?, filter, count_where, length, if◌then◌else◌,
}
use kw_awards_voting_platfom.Prelude.Sorting.{sort_by}
use kw_awards_voting_platfom.Exceptions.{Result, ok, err, protected_error, does_not_exist}
use kw_awards_voting_platfom.Exec.{Action, or_raise, atomic, ◌>>=◌}
use kw_awards_voting_platfom.Models.Voting.{Voter, Challenge, Vote}
use kw_awards_voting_platfom.Models.Audit.{AuditLog}
use kw_awards_voting_platfom.Models.Payments.{Payment}
use kw_awards_voting_platfom.Models.State.{Db, World}
use kw_awards_voting_platfom.Cache.{second}

-- The reverse relations `votes`, `payments` and `audit_entries` of a voter.
abbrev pub has_votes : Db → ℕ → Bool
has_votes db voter = any (λ (v : Vote). v.voter == voter) db.votes

abbrev pub has_payments : Db → ℕ → Bool
has_payments db voter = any (λ (p : Payment). p.voter == voter) db.payments

abbrev pub has_audit_entries : Db → ℕ → Bool
has_audit_entries db voter = any (λ (a : AuditLog). opt_eq a.actor_voter voter) db.audit_log

-- The filters of the candidates. `created_at < now - hours` has its subtraction moved to the left.
unfoldable pub is_candidate : Db → ℕ → ℕ → Voter → Bool
is_candidate db now hours v =
    (is_none v.verified_at && ltb (v.created_at + hours * (3600 * second)) now)
    && (not (has_votes db v.id) && not (has_payments db v.id))

unfoldable pub candidate_ids : Db → ℕ → ℕ → List ℕ
candidate_ids db now hours =
    sort_by leb (map (λ (v : Voter). v.id) (filter (is_candidate db now hours) db.voters))

-- What the foreign keys of votes, payments and audit entries, all `PROTECT`, say of a voter.
unfoldable pub is_protected : Db → ℕ → Bool
is_protected db voter = has_votes db voter || (has_payments db voter || has_audit_entries db voter)

abbrev pub without_voter : ℕ → Db → Db
without_voter id db = record db {
  voters = filter (λ (v : Voter). not (v.id == id)) db.voters;
  challenges = filter (λ (c : Challenge). not (c.voter == id)) db.challenges;
}

-- `voter.delete()`, which takes the challenges of the voter along (`CASCADE`) and answers their number.
unfoldable pub delete_voter : Voter → Action ℕ
delete_voter v w = if is_protected w.db v.id then (err protected_error, w) else (
  ok (count_where (λ (c : Challenge). c.voter == v.id) w.db.challenges),
  record w { db = without_voter v.id w.db },
)

-- The transaction of one candidate.
unfoldable pub delete_candidate : ℕ → Action ℕ
delete_candidate id = atomic do
  v ← (λ w. or_raise does_not_exist (find? (λ (v : Voter). v.id == id) w.db.voters) w)
  delete_voter v

pub record Counts : Type 0 where
  pub deleted : ℕ
  pub challenges_deleted : ℕ
  pub skipped_protected : ℕ

-- The handlers of the loop: a voter that is gone is passed over. No other exception is raised.
unfoldable pub count_outcome : Result ℕ → Counts → Counts
count_outcome (ok n) c = record c {
  deleted = c.deleted + 1;
  challenges_deleted = c.challenges_deleted + n;
}
count_outcome (err protected_error) c = record c { skipped_protected = c.skipped_protected + 1 }
count_outcome (err e) c = c

unfoldable pub delete_all : List ℕ → Counts → World → Counts × World
delete_all [] c w = (c, w)
delete_all (id ∷ ids) c w =
    let (outcome, w1) = delete_candidate id w in delete_all ids (count_outcome outcome c) w1

abbrev pub no_counts : Counts
no_counts = record { deleted = 0; challenges_deleted = 0; skipped_protected = 0 }

-- What the command prints: would be deleted, would be skipped; or deleted, challenges, skipped.
pub data Report : Type 0 where
  dry_run : ℕ → ℕ → Report
  executed : Counts → Report

unfoldable pub count_protected : Db → List ℕ → ℕ
count_protected db ids =
    count_where (λ (v : Voter). any (λ id. v.id == id) ids && has_audit_entries db v.id) db.voters

-- `handle`, at the time `now`.
unfoldable pub handle : ℕ → ℕ → Bool → World → Report × World
handle now hours execute w =
    let ids = candidate_ids w.db now hours in
    let protected = count_protected w.db ids in
    let (counts, w1) = delete_all ids no_counts w in
    if not execute then (dry_run (length ids - protected) protected, w) else (executed counts, w1)
