-- ===== src/SmsBudget/Bound.antt =====
-- How many messages the budget lets through in a day of Nairobi.
use kw_awards_voting_platfom.Prelude.{
  ℕ, suc, ◌+◌, ◌*◌, ◌-◌, ◌≤◌, ◌<◌, min, Option, none, List, [], ◌∷◌, Text, ◌≡◌, ltb, length, arith,
  if◌then◌else◌,
}
use kw_awards_voting_platfom.Exceptions.{Result, ok, err}
use kw_awards_voting_platfom.Exec.{⊤}
use kw_awards_voting_platfom.Models.Voting.{Voter}
use kw_awards_voting_platfom.Models.State.{World, Env, Request, sms_budget}
use kw_awards_voting_platfom.Audit.{log_voter_event, log, add_entry}
use kw_awards_voting_platfom.Cache.{second, cache_get, count_one}
use kw_awards_voting_platfom.Cache.Counting.{Counts, later-Counts, count_one-Counts, absent-Counts}
use kw_awards_voting_platfom.SmsBudget.{
  day_length, nairobi_now, nairobi_day, seconds_until_next_nairobi_day, settle_budget, reserve,
}

-- The counter of a day lives until that day ends in Nairobi.
day_end :
    (now : ℕ)
    → (now < suc (nairobi_day now) * day_length - 10800 * second)
      × (suc (nairobi_day now) * day_length - 10800 * second
          ≤ now + seconds_until_next_nairobi_day now * second)
unfolding nairobi_day nairobi_now seconds_until_next_nairobi_day
day_end now = (omega arith, omega arith)

abbrev got_through : Result ⊤ → ℕ
got_through (ok x) = 1
got_through (err e) = 0

-- Requests to send, each with its request and voter; they come in order, not before `start`, and all on
-- one day.
abbrev pub Sends : Type 0
Sends = List (Request × Option Voter × Text)

abbrev pub OnDay : ℕ → ℕ → Sends → Type 0
OnDay day start [] = Unit
OnDay day start ((r, v, phone) ∷ rest) =
    (start ≤ r.now) × (nairobi_day r.now ≡ day) × OnDay day r.now rest

-- How many of them are let through.
pub sent : Env → Sends → World → ℕ
sent env [] w = 0
sent env ((r, v, phone) ∷ rest) w =
    let (x, w') = reserve env r v phone w in got_through x + sent env rest w'

reserved :
    (env : Env) (r : Request) (v : Option Voter) (phone : Text) (w : World)
    → 1 ≤ env.sms_daily_limit
    → let (count, cache) =
        count_one r.now
          (sms_budget (nairobi_day r.now))
          (seconds_until_next_nairobi_day r.now)
          w.cache in
      let (x, w') = reserve env r v phone w in
      (w'.cache ≡ cache) × (got_through x ≡ (if ltb env.sms_daily_limit count then 0 else 1))
unfolding reserve settle_budget log_voter_event log add_entry
reserved env r v phone w on = (ground arith, ground arith)

abbrev day_limit : ℕ → ℕ
day_limit day = suc day * day_length - 10800 * second

sent-Counts :
    (env : Env) (day start n : ℕ) (sends : Sends) (w : World)
    → 1 ≤ env.sms_daily_limit
    → OnDay day start sends
    → Counts start (sms_budget day) (day_limit day) n w.cache
    → sent env sends w ≡ min (env.sms_daily_limit - n) (length sends)
unfolding sent
sent-Counts env day start n [] w on i h = omega arith
sent-Counts env day start n ((r, v, phone) ∷ rest) w on (l, e, i) h =
    let (before_end, within) = day_end r.now in
    let w' = (reserve env r v phone w).1 in
    let ttl = seconds_until_next_nairobi_day r.now in
    let early = rw e at before_end in
    let now = later-Counts start r.now (sms_budget day) (day_limit day) n w.cache l early h in
    let (counts, now') =
      count_one-Counts r.now ttl (sms_budget day) (day_limit day) n w.cache early (rw e at within)
        now in
    let (cache, verdict) = reserved env r v phone w on in
    let rec = sent-Counts env day r.now (suc n) rest w' on i (rw (rw e at cache) now') in
    ground (arith, counts, rec, rw e at verdict)

-- With a limit set, and no counter of the day before them, of the messages of one day in Nairobi
-- exactly as many are let through as the limit says, or all if they are fewer.
pub sent_limit :
    (env : Env) (day start : ℕ) (sends : Sends) (w : World)
    → 1 ≤ env.sms_daily_limit
    → OnDay day start sends
    → cache_get start (sms_budget day) w.cache ≡ none
    → sent env sends w ≡ min env.sms_daily_limit (length sends)
sent_limit env day start sends w on i absent = ground (
  arith,
  sent-Counts env day start 0 sends w on i
      (absent-Counts start (sms_budget day) (day_limit day) w.cache absent),
)
