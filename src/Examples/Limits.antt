-- ===== src/Examples/Limits.antt =====
-- Throttles and the budget of messages at the gala.
use kw_awards_voting_platfom.Prelude.{
  ℕ, ◌+◌, ◌*◌, ◌/◌, ◌≤◌, Bool, true, false, Option, none, some, List, [], ◌∷◌, Text, ◌≡◌, refl,
  codes, text_eq, arith, count_where, min, length,
}
use kw_awards_voting_platfom.Cache.{second, cache_get}
use kw_awards_voting_platfom.Throttles.{digest_of, parse_rate}
use kw_awards_voting_platfom.Throttles.Windows.{Calls, InWindow, served, served_limit}
use kw_awards_voting_platfom.SmsBudget.Bound.{Sends, OnDay, sent, sent_limit}
use kw_awards_voting_platfom.Examples.Data.{env, amina, phone, world, request_at}

parse_rate_used : parse_rate (codes " 3/15m ") ≡ some (3, 900)
unfolding parse_rate kw_awards_voting_platfom.Prelude.lstrip
    kw_awards_voting_platfom.Prelude.is_space
parse_rate_used = refl

parse_rate_day : parse_rate (codes "10/d") ≡ some (10, 86400)
unfolding parse_rate kw_awards_voting_platfom.Prelude.lstrip
    kw_awards_voting_platfom.Prelude.is_space
parse_rate_day = refl

parse_rate_refused : parse_rate (codes "3/15x") ≡ none
unfolding parse_rate kw_awards_voting_platfom.Prelude.lstrip
    kw_awards_voting_platfom.Prelude.is_space
parse_rate_refused = refl

-- Three requests with the digest "a" and one with the digest "b", within one window of a minute.
abbrev calls : Calls
calls = (codes "a", 1) ∷ (codes "b", 2) ∷ (codes "a", 3) ∷ (codes "a", 4) ∷ []

in_window : InWindow (60 * second) 0 1 calls
in_window = (omega arith, refl, (omega arith, refl, (omega arith, refl, (omega arith, refl, tt))))

positive : 1 ≤ 60
positive = omega arith

served_limit_example :
    served env "otp" 2 60 (codes "a") calls []
    ≡ min 2 (count_where (λ (c : Text × ℕ). text_eq (digest_of env c.0) (codes "a")) calls)
unfolding cache_get
served_limit_example =
    served_limit env "otp" 2 60 (codes "a") 0 1 calls [] positive refl in_window refl

abbrev sends : Sends
sends =
    (request_at 1 1, some amina, phone)
    ∷ (request_at 2 2, some amina, phone)
    ∷ (request_at 3 3, none, phone)
    ∷ []

on_day : OnDay 0 1 sends
unfolding kw_awards_voting_platfom.SmsBudget.nairobi_day
on_day = (omega arith, refl, (omega arith, refl, (omega arith, refl, tt)))

limit_set : 1 ≤ 2
limit_set = omega arith

sent_limit_example : sent env sends world ≡ min 2 3
unfolding cache_get
sent_limit_example = sent_limit env 0 1 sends world limit_set on_day refl
