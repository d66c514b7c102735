-- ===== src/Models/Voting.antt =====
-- voting/models.py: voters, one-time codes and votes, with the constraints of their tables.
use kw_awards_voting_platfom.Prelude.{
  ℕ, Bool, true, false, ◌&&◌, ◌||◌, not, Option, Text, ◌==◌, ltb, leb, is_some, is_none, is_empty,
}

pub record Voter : Type 0 where
  pub id : ℕ
  pub phone_e164 : Text
  pub verified_at : Option ℕ
  pub is_blocked : Bool
  pub created_at : ℕ

-- `OTPChallenge`; `purpose` has the one value `VOTE_LOGIN`.
pub record Challenge : Type 0 where
  pub id : ℕ
  pub voter : ℕ
  pub code_hash : Text
  pub expires_at : ℕ
  pub attempts : ℕ
  pub consumed_at : Option ℕ
  pub requested_ip : Option Text
  pub user_agent : Text
  pub created_at : ℕ

-- `OTPChallenge.is_usable`, with `settings.OTP_MAX_ATTEMPTS` and the time as arguments.
unfoldable pub is_usable : ℕ → ℕ → Challenge → Bool
is_usable max_attempts at c =
    is_none c.consumed_at && (ltb at c.expires_at && ltb c.attempts max_attempts)

pub data VoteSource : Type 0 where
  free paid : VoteSource

abbrev pub is_free : VoteSource → Bool
is_free free = true
is_free paid = false

pub record Vote : Type 0 where
  pub id : ℕ
  pub event : ℕ
  pub award : ℕ
  pub nomination : ℕ
  pub voter : ℕ
  pub source : VoteSource
  pub quantity : ℕ
  pub payment : Option ℕ
  pub ip_address : Option Text
  pub user_agent : Text
  pub voided_at : Option ℕ
  pub voided_by : Option ℕ
  pub void_reason : Text
  pub created_at : ℕ

-- `VoteQuerySet.active`: the votes that count.
abbrev pub is_active_vote : Vote → Bool
is_active_vote v = is_none v.voided_at

-- The check constraints `vote_source_rules`, `vote_quantity_positive` and `vote_void_has_reason`.
unfoldable pub vote_checks : Vote → Bool
vote_checks v =
    ((is_free v.source && (v.quantity == 1 && is_none v.payment))
      || (not (is_free v.source) && is_some v.payment))
    && (leb 1 v.quantity && (is_none v.voided_at || not (is_empty v.void_reason)))

-- A row of the partial unique index `vote_one_active_free_per_voter_per_award`.
abbrev pub is_indexed : Vote → Bool
is_indexed v = is_free v.source && is_active_vote v

abbrev pub same_slot : Vote → Vote → Bool
same_slot a b = is_indexed a && (is_indexed b && (a.voter == b.voter && a.award == b.award))

-- Two rows that the primary key or the partial unique index does not let stand together.
abbrev pub vote_clash : Vote → Vote → Bool
vote_clash a b = a.id == b.id || same_slot a b
