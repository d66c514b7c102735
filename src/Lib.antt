-- ===== src/Lib.antt =====
-- The verification library of the KW Awards voting platform.
--
-- The program is the Django project backend/voting_platform. Members of the public submit
-- nominations, moderators review them, voters log in with a code sent to their phone and cast one
-- free vote per award, staff move an event through its phases and may void votes, and results are
-- computed from the votes. Every step that matters is written to an append-only audit log.
--
-- Models holds the rows of the tables (accounts/models.py, events/models.py,
-- nominations/models.py, voting/models.py, payments/models.py, audit/models.py) with their check
-- constraints and unique indexes, and the state that a request reads and writes: the database,
-- the cache, the messages sent. Tables are lists with the newest row first, which is the order
-- `-seq`; times are microseconds; identifiers are natural numbers. Exec is the way in which a
-- request runs: it returns a value or raises, `transaction.atomic()` restores the database when
-- it raises, and the cache and the messages that are out keep what happened. Exceptions lists the
-- errors (common/exceptions.py).
--
-- Phone (common/phone.py) and Ip (common/ip.py) are read by Audit (audit/services.py) and by
-- Voting. Cache is what common/throttles.py (Throttles) and common/sms_budget.py (SmsBudget)
-- count with. Events is events/services.py (`change_status`). Nominations is
-- nominations/services.py (`review_nomination`) and the public list of nominations/views.py.
-- Voting.Table is the table of votes: INSERT, UPDATE, the trigger of voting/migrations and the
-- guards of `Vote.save` and `VoteQuerySet`. Voting.Services is voting/services.py
-- (`cast_free_vote`, `void_vote`), Voting.Otp is voting/otp.py (`request_otp`, with `verify_otp`
-- in Voting.Otp.Verify), and Voting.Results is voting/results.py (`event_stats` in
-- Voting.Results.Stats). Voting.Endpoints is voting/views.py with voting/throttles.py and the
-- validation of voting/serializers.py: handlers, permissions and throttles of the endpoints of
-- voters. Voting.Purge is the command purge_unverified_voters. Events.Views is events/views.py,
-- events/selectors.py and the validation of events/serializers.py; Events.Deletion is
-- `perform_destroy` with the foreign keys that cascade and protect (Events.Deletion.Links has all
-- of these keys). Accounts is the login, the sessions and the creation of staff users
-- (accounts/serializers.py, accounts/views.py, accounts/cookies.py, accounts/models.py).
-- Audit.Search is audit/views.py, Exceptions.Handler the exception handler, where an exception
-- carries a code of its own, and Nominations.Images is nominations/images.py.
-- Nominations.Submission is the form of nominations/serializers.py behind
-- `NominationViewSet.create`, with common/text.py in CleanText. Nominations.Views is the rest of
-- nominations/views.py, Nominations.Serializers the columns that are sent of a nomination, and
-- LogFilters is common/log_filters.py. Access is accounts/roles.py, accounts/permissions.py,
-- accounts/authentication.py and voting/authentication.py. Backends is the choice of providers in
-- common/sms.py and common/captcha.py and its guard in settings/prod.py. Sequences of requests
-- are step relations: Voting.Services.Reach for votes, with a step for the late half of a request
-- that raced another, and Voting.Otp.Reach for codes. Voting.Services.Ballot is the abstract
-- specification of voting: a box with at most one ballot for a voter and an award, in which the
-- table of votes is forgotten.
--
-- What the repository does not hold is a parameter: `Env` carries SHA-256 and HMAC, the
-- membership test of `ipaddress`, django-ipware, the provider that delivers a message, the lower
-- case, upper case, normal form, tags and collation of texts, and the settings; `PhoneNumbers` is
-- the package of that name, `Jwt`, `Obtain` and `RefreshTokens` are
-- djangorestframework-simplejwt, `Pillow` is Pillow, `Classes` is what regular expressions take
-- for digits and word characters, and `Dispatch` and `Framework` are djangorestframework. One
-- `now` stands for the clock readings of a request, and the random values that it draws are
-- fields of `Request`. The only fuel is that of `decimal`, which prints a number: it is one more
-- than the number, and every digit needs one unit.
--
-- Not modelled: the shape of other responses, the admin site, settings other than those guards,
-- migrations other than the triggers, the HTTP calls to the providers, seed data, what is logged,
-- passwords, `updated_at`, the time of the last login and the outstanding tokens that simplejwt
-- writes, and the columns of a row that are only stored and shown, such as links and
-- descriptions. Requests run one after the other except for the late half of a cast; row locks
-- are taken to serialise the rest.
pub mod Prelude
pub mod Models
pub mod Exceptions
pub mod Exec
pub mod Phone
pub mod LogFilters
pub mod Ip
pub mod Audit
pub mod Cache
pub mod Throttles
pub mod SmsBudget
pub mod Dispatch
pub mod Events
pub mod Nominations
pub mod Voting
pub mod CleanText
pub mod Backends
pub mod Access
pub mod Accounts
pub mod Examples
