-- ===== src/SmsBudget.antt =====
-- common/sms_budget.py: the global budget of text messages per day of Nairobi, which is UTC+3 all
-- the year. The warnings that it logs are not modelled.
pub mod Bound
use kw_awards_voting_platfom.Prelude.{
  ℕ, suc, ◌+◌, ◌-◌, ◌*◌, ◌/◌, max, Bool, true, false, Option, some, none, List, [], ◌∷◌, Text, ◌==◌,
  ltb, ceil_div, if◌then◌else◌,
}
use kw_awards_voting_platfom.Exceptions.{ok, err, api, sms_unavailable}
use kw_awards_voting_platfom.Exec.{⊤, Action, raise, ◌>>◌, ◌>>=◌}
use kw_awards_voting_platfom.Models.Voting.{Voter}
use kw_awards_voting_platfom.Models.Audit.{AuditAction, Json, Metadata}
use kw_awards_voting_platfom.Models.State.{World, Env, Request, CacheKey, sms_budget, Counter}
use kw_awards_voting_platfom.Audit.{log_voter_event}
use kw_awards_voting_platfom.Cache.{second, count_one}

abbrev pub day_length : ℕ
day_length = 86400 * second

-- `_nairobi_now`, as the time that a clock in Nairobi shows.
unfoldable pub nairobi_now : ℕ → ℕ
nairobi_now now = now + 10800 * second

-- The date in Nairobi, as a number of days.
unfoldable pub nairobi_day : ℕ → ℕ
unfolding nairobi_now
nairobi_day now = nairobi_now now / day_length

unfoldable pub seconds_until_next_nairobi_day : ℕ → ℕ
unfolding nairobi_now nairobi_day
seconds_until_next_nairobi_day now =
    max 1 (ceil_div (suc (nairobi_day now) * day_length - nairobi_now now) second)

abbrev pub exhausted_metadata : ℕ → ℕ → Metadata
exhausted_metadata count limit = ("count", Json.num count) ∷ ("limit", Json.num limit) ∷ []

-- What follows the count.
unfoldable pub settle_budget : Env → Request → Option Voter → Text → ℕ × List Counter → Action ⊤
settle_budget env r v phone (count, cache) w =
    if ltb env.sms_daily_limit count
    then (log_voter_event env r.now (some r) AuditAction.sms_budget_exhausted v phone none
            (exhausted_metadata count env.sms_daily_limit)
          >> raise (api (sms_unavailable (seconds_until_next_nairobi_day r.now))))
        (record w { cache = cache })
    else (ok tt, record w { cache = cache })

unfoldable pub reserve : Env → Request → Option Voter → Text → Action ⊤
reserve env r v phone w =
    if env.sms_daily_limit == 0
    then (ok tt, w)
    else settle_budget env r v phone
        (count_one r.now (sms_budget (nairobi_day r.now)) (seconds_until_next_nairobi_day r.now)
          w.cache)
        w
