-- ===== src/Events/Deletion/Links.antt =====
-- The foreign keys of events/models.py, nominations/models.py, voting/models.py, payments/models.py and
-- audit/models.py, and that each has its row.
use kw_awards_voting_platfom.Prelude.{ℕ, Bool, true, Option, none, some, ◌≡◌, ◌==◌, any, All}
use kw_awards_voting_platfom.Models.Events.{Event, Category, Award}
use kw_awards_voting_platfom.Models.Accounts.{User}
use kw_awards_voting_platfom.Models.Audit.{AuditLog}
use kw_awards_voting_platfom.Models.Nominations.{Nominee, Nomination}
use kw_awards_voting_platfom.Models.Voting.{Voter, Challenge, Vote}
use kw_awards_voting_platfom.Models.Payments.{Payment}
use kw_awards_voting_platfom.Models.State.{Db}

abbrev pub has_event : Db → ℕ → Bool
has_event db k = any (λ (e : Event). e.id == k) db.events

abbrev pub has_category : Db → ℕ → Bool
has_category db k = any (λ (c : Category). c.id == k) db.categories

abbrev pub has_award : Db → ℕ → Bool
has_award db k = any (λ (a : Award). a.id == k) db.awards

abbrev pub has_nomination : Db → ℕ → Bool
has_nomination db k = any (λ (n : Nomination). n.id == k) db.nominations

abbrev pub has_nominee : Db → ℕ → Bool
has_nominee db k = any (λ (n : Nominee). n.id == k) db.nominees

abbrev pub has_voter : Db → ℕ → Bool
has_voter db k = any (λ (v : Voter). v.id == k) db.voters

abbrev pub has_user : Db → ℕ → Bool
has_user db k = any (λ (u : User). u.id == k) db.users

abbrev pub has_payment : Db → ℕ → Bool
has_payment db k = any (λ (p : Payment). p.id == k) db.payments

-- A key that may be NULL.
abbrev pub if_set : (ℕ → Bool) → Option ℕ → Bool
if_set has none = true
if_set has (some k) = has k

-- The rows of the catalogue that a vote needs.
abbrev pub HasTargets : Db → Vote → Type 0
HasTargets db v =
    (has_event db v.event ≡ true)
    × (has_award db v.award ≡ true)
    × (has_nomination db v.nomination ≡ true)

-- The rows outside the catalogue that a nomination, a vote and an entry of the audit log need.
abbrev pub HasPeople : Db → Nomination → Type 0
HasPeople db n = (has_nominee db n.nominee ≡ true) × (if_set (has_user db) n.reviewed_by ≡ true)

abbrev pub HasOrigin : Db → Vote → Type 0
HasOrigin db v =
    (has_voter db v.voter ≡ true)
    × (if_set (has_user db) v.voided_by ≡ true)
    × (if_set (has_payment db) v.payment ≡ true)

abbrev pub HasActors : Db → AuditLog → Type 0
HasActors db e =
    (if_set (has_user db) e.actor_user ≡ true) × (if_set (has_voter db) e.actor_voter ≡ true)

-- Every foreign key has its row.
pub record IsLinked (db : Db) : Type 0 where
  pub categories : All (λ (c : Category). has_event db c.event ≡ true) db.categories
  pub awards : All (λ (a : Award). has_category db a.category ≡ true) db.awards
  pub nominees : All (λ (n : Nominee). if_set (has_user db) n.owner ≡ true) db.nominees
  pub nominations : All (λ (n : Nomination). has_award db n.award ≡ true) db.nominations
  pub people : All (HasPeople db) db.nominations
  pub votes : All (HasTargets db) db.votes
  pub origins : All (HasOrigin db) db.votes
  pub payments : All (λ (p : Payment). has_nomination db p.nomination ≡ true) db.payments
  pub payers : All (λ (p : Payment). has_voter db p.voter ≡ true) db.payments
  pub challenges : All (λ (c : Challenge). has_voter db c.voter ≡ true) db.challenges
  pub actors : All (HasActors db) db.audit_log
