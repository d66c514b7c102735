-- ===== src/Cache.antt =====
-- The operations of Django's cache that common/throttles.py and common/sms_budget.py use, with the
-- `add`, `incr`, `set` pattern that both repeat.
pub mod Counting
use kw_awards_voting_platfom.Prelude.{
  ℕ, suc, ◌+◌, ◌*◌, Bool, true, false, ◌&&◌, Option, none, some, List, [], ◌∷◌, ◌==◌, str_eq,
  text_eq, ltb, if◌then◌else◌,
}
use kw_awards_voting_platfom.Models.State.{CacheKey, throttle, sms_budget, Counter}

-- A second, in the unit of all times.
abbrev pub second : ℕ
second = 1000000

unfoldable pub key_eq : CacheKey → CacheKey → Bool
key_eq (throttle s d b) (throttle t e c) = str_eq s t && (text_eq d e && b == c)
key_eq (sms_budget a) (sms_budget b) = a == b
key_eq _ _ = false

-- A counter is there until it expires.
abbrev is_live : ℕ → CacheKey → Counter → Bool
is_live now key c = key_eq c.key key && ltb now c.expires_at

-- `cache.get(key)`
unfoldable pub cache_get : ℕ → CacheKey → List Counter → Option ℕ
cache_get now key [] = none
cache_get now key (c ∷ cache) = if is_live now key c then some c.count else cache_get now key cache

-- `cache.set(key, value, timeout)`
unfoldable pub cache_set : ℕ → CacheKey → ℕ → ℕ → List Counter → List Counter
cache_set now key value timeout cache =
    record { key = key; count = value; expires_at = now + timeout * second } ∷ cache

add_absent : ℕ → CacheKey → ℕ → ℕ → Option ℕ → List Counter → List Counter
unfolding cache_set
add_absent now key value timeout none cache = cache_set now key value timeout cache
add_absent now key value timeout (some n) cache = cache

-- `cache.add(key, value, timeout)`: nothing happens if the key is there.
unfoldable pub cache_add : ℕ → CacheKey → ℕ → ℕ → List Counter → List Counter
unfolding add_absent
cache_add now key value timeout cache =
    add_absent now key value timeout (cache_get now key cache) cache

raise_first : ℕ → CacheKey → List Counter → List Counter
raise_first now key [] = []
raise_first now key (c ∷ cache) =
    if is_live now key c
    then record c { count = suc c.count } ∷ cache
    else c ∷ raise_first now key cache

incr_found : ℕ → CacheKey → Option ℕ → List Counter → Option (ℕ × List Counter)
unfolding raise_first
incr_found now key none cache = none
incr_found now key (some n) cache = some (suc n, raise_first now key cache)

-- `cache.incr(key)`; `none` stands for `ValueError`, on a key that is not there.
unfoldable pub cache_incr : ℕ → CacheKey → List Counter → Option (ℕ × List Counter)
unfolding incr_found
cache_incr now key cache = incr_found now key (cache_get now key cache) cache

or_set : ℕ → CacheKey → ℕ → Option (ℕ × List Counter) → List Counter → ℕ × List Counter
or_set now key timeout none cache = (1, cache_set now key 1 timeout cache)
or_set now key timeout (some (n, cache')) cache = (n, cache')

-- `add`, then `incr`, and `set` to 1 if the key has gone between the two.
unfoldable pub count_one : ℕ → CacheKey → ℕ → List Counter → ℕ × List Counter
unfolding or_set
count_one now key timeout cache =
    let added = cache_add now key 0 timeout cache in
    or_set now key timeout (cache_incr now key added) added
