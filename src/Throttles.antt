-- ===== src/Throttles.antt =====
-- common/throttles.py: fixed-window throttles with rates such as "3/15m".
pub mod Windows
pub mod Rates
use kw_awards_voting_platfom.Prelude.{
  ℕ, suc, ◌+◌, ◌-◌, ◌*◌, ◌/◌, max, Bool, true, false, ◌&&◌, Option, none, some, List, [], ◌∷◌, ◌++◌,
  String, Text, codes, uuid_text, strip, lstrip, is_empty, take, ◌==◌, ltb, leb, ceil_div,
  if◌then◌else◌,
}
use kw_awards_voting_platfom.Exceptions.{Result, ok, err, value_error, zero_division_error}
use kw_awards_voting_platfom.Models.State.{
  Env, Request, Principal, anonymous, staff, voter, CacheKey, throttle, Counter,
}
use kw_awards_voting_platfom.Phone.{PhoneNumbers, normalize_phone, default_region}
use kw_awards_voting_platfom.Ip.{get_client_ip}
use kw_awards_voting_platfom.Cache.{second, count_one}

abbrev is_digit : ℕ → Bool
is_digit c = leb 48 c && leb c 57

-- The digits that a text starts with, read as a number on top of `n`, and whether there are any.
unfoldable read_digits : ℕ → Text → ℕ × Text
read_digits n [] = (n, [])
read_digits n (c ∷ s) =
    let rest = read_digits (10 * n + (c - 48)) s in if is_digit c then rest else (n, c ∷ s)

abbrev starts_with_digit : Text → Bool
starts_with_digit [] = false
starts_with_digit (c ∷ s) = is_digit c

-- `_UNIT_SECONDS`
abbrev pub unit_seconds : ℕ → Option ℕ
unit_seconds c =
    if c == 115
    then some 1
    else if c == 109
    then some 60
    else if c == 104
    then some 3600
    else if c == 100
    then some 86400
    else none

-- What follows the multiplier: white space, a unit, white space.
unfoldable read_unit : ℕ → ℕ → Text → Option (ℕ × ℕ)
read_unit count multiplier [] = none
read_unit count multiplier (c ∷ s) = elim (unit_seconds c) [
  | none ↦ none
  | some seconds ↦ if is_empty (lstrip s) then some (count, multiplier * seconds) else none
]

-- What follows the count: white space, a slash, white space and the multiplier, which is 1 if it is
-- left out.
unfoldable read_window : ℕ → Text → Option (ℕ × ℕ)
unfolding read_digits read_unit
read_window count [] = none
read_window count (c ∷ s) =
    let rest = lstrip s in
    let (multiplier, after) = read_digits 0 rest in
    if c == 47
    then read_unit count (if starts_with_digit rest then multiplier else 1) (lstrip after)
    else none

-- `parse_rate` on the ASCII digits; `none` stands for `ValueError`.
unfoldable pub parse_rate : Text → Option (ℕ × ℕ)
unfolding read_digits read_window
parse_rate rate =
    let start = lstrip rate in
    let (count, after) = read_digits 0 start in
    if starts_with_digit start then read_window count (lstrip after) else none

-- `allow_request` returns `True`, or `False` with the seconds that `wait` then answers.
pub data Verdict : Type 0 where
  allowed : Verdict
  refused : ℕ → Verdict

abbrev pub wait_of : ℕ → ℕ → ℕ
wait_of window now =
    max 1 (ceil_div (suc (now / (window * second)) * (window * second) - now) second)

unfoldable pub verdict : ℕ → ℕ → ℕ → ℕ → Verdict
verdict limit window now count = if ltb limit count then refused (wait_of window now) else allowed

-- `hashlib.sha256(ident).hexdigest()[:32]`
unfoldable pub digest_of : Env → Text → Text
digest_of env ident = take 32 (env.sha256 ident)

-- The part of `allow_request` that counts, for a positive window.
unfoldable pub count_request :
    Env → String → ℕ → ℕ → Text → ℕ → List Counter → Verdict × List Counter
count_request env scope limit window ident now cache =
    let (count, cache') =
      count_one now (throttle scope (digest_of env ident) (now / (window * second))) window cache in
    (verdict limit window now count, cache')

limited : Env → String → Text → ℕ → List Counter → Option (ℕ × ℕ) → Result Verdict × List Counter
limited env scope ident now cache none = (err value_error, cache)
limited env scope ident now cache (some (limit, window)) =
    let (v, cache') = count_request env scope limit window ident now cache in
    if window == 0 then (err zero_division_error, cache) else (ok v, cache')

allow_ident : Env → String → Text → ℕ → List Counter → Option Text → Result Verdict × List Counter
unfolding limited
allow_ident env scope rate now cache none = (ok allowed, cache)
allow_ident env scope rate now cache (some ident) =
    if is_empty ident
    then (ok allowed, cache)
    else limited env scope ident now cache (parse_rate rate)

allow_rate :
    Env → String → Option Text → ℕ → List Counter → Option Text → Result Verdict × List Counter
unfolding allow_ident
allow_rate env scope ident now cache none = (ok allowed, cache)
allow_rate env scope ident now cache (some rate) =
    if is_empty rate then (ok allowed, cache) else allow_ident env scope rate now cache ident

-- `WindowThrottle.allow_request`, with the identity that `get_ident` answers.
unfoldable pub allow_request :
    Env → String → Option Text → ℕ → List Counter → Result Verdict × List Counter
unfolding allow_rate
allow_request env scope ident now cache =
    allow_rate env scope ident now cache (env.throttle_rates scope)

-- `IPThrottle.get_ident`
unfoldable pub ip_ident : Env → Request → Option Text
ip_ident env r = get_client_ip env r

or_raw : Text → Option Text → Option Text
or_raw raw none = some (codes "raw:" ++ take 40 (strip raw))
or_raw raw (some phone) = some phone

-- `PhoneThrottle.get_ident`, on the phone of the request's data if it is a text.
unfoldable pub phone_ident : PhoneNumbers → Option Text → Option Text
unfolding or_raw
phone_ident lib none = none
phone_ident lib (some raw) =
    if is_empty (strip raw) then none else or_raw raw (normalize_phone lib raw default_region)

-- `UserOrIPThrottle.get_ident`
unfoldable pub user_or_ip_ident : Env → Request → Principal → Option Text
user_or_ip_ident env r anonymous = get_client_ip env r
user_or_ip_ident env r (staff u) = some (codes "id:" ++ uuid_text u)
user_or_ip_ident env r (voter v) = some (codes "id:" ++ uuid_text v)
