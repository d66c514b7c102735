-- ===== src/Models/State.antt =====
-- The state that a request handler reads and writes: the database, the cache and the messages
-- handed to the SMS provider; the request itself; and what the program takes from its settings and
-- from libraries that are not part of the repository.
use kw_awards_voting_platfom.Prelude.{ℕ, Bool, Option, List, String, Text}
use kw_awards_voting_platfom.Models.Accounts.{User}
use kw_awards_voting_platfom.Models.Events.{Event, Category, Award}
use kw_awards_voting_platfom.Models.Nominations.{Nominee, Nomination}
use kw_awards_voting_platfom.Models.Voting.{Voter, Challenge, Vote}
use kw_awards_voting_platfom.Models.Audit.{AuditLog}
use kw_awards_voting_platfom.Models.Payments.{Payment}

pub record Db : Type 0 where
  pub users : List User
  pub events : List Event
  pub categories : List Category
  pub awards : List Award
  pub nominees : List Nominee
  pub nominations : List Nomination
  pub voters : List Voter
  pub challenges : List Challenge
  pub votes : List Vote
  pub payments : List Payment
  pub audit_log : List AuditLog

-- A cache key: `throttle:{scope}:{digest}:{bucket}` or `sms_budget:{day}`.
pub data CacheKey : Type 0 where
  throttle : String → Text → ℕ → CacheKey
  sms_budget : ℕ → CacheKey

-- A counter in the cache, with the time at which it expires.
pub record Counter : Type 0 where
  pub key : CacheKey
  pub count : ℕ
  pub expires_at : ℕ

pub record World : Type 0 where
  pub db : Db
  pub cache : List Counter
  pub outbox : List (Text × Text)

-- `request.user` after authentication.
pub data Principal : Type 0 where
  anonymous : Principal
  staff : ℕ → Principal
  voter : ℕ → Principal

-- A request: the instant at which it is handled, the parts of `request.META` that the program reads,
-- the authenticated principal, and the random values that handling it draws.
pub record Request : Type 0 where
  pub now : ℕ
  pub remote_addr : Text
  pub forwarded_for : Text
  pub http_user_agent : Text
  pub user : Principal
  pub uuid : ℕ
  pub second_uuid : ℕ
  pub random_code : ℕ

pub record Env : Type 0 where
  pub otp_max_attempts : ℕ
  pub otp_ttl_seconds : ℕ
  pub sms_daily_limit : ℕ
  pub otp_length : ℕ
  pub throttle_rates : String → Option Text
  pub secret_key : Text
  pub audit_phone_hash_key : Text
  pub trusted_proxies : List Text
  pub sha256 : Text → Text
  pub hmac_sha256 : Text → Text → Text
  pub in_network : Text → Text → Bool
  pub ipware_client_ip : Text → List Text → Option Text
  pub sms_delivers : Text → Text → Bool
  pub lower : Text → Text
  pub upper : Text → Text
  pub nfc : Text → Text
  pub strip_tags : Text → Text
  pub collate : Text → Text → Bool
