-- ===== src/Cache/Counting.antt =====
-- What a counter of the cache holds between two times.
use kw_awards_voting_platfom.Prelude.{
  ℕ, suc, ◌+◌, ◌*◌, ◌≤◌, ◌<◌, true, false, Option, none, some, List, [], ◌∷◌, ◌≡◌, refl, ◌⊎◌, inl,
  inr, arith, text_eq→eq, text_eq_refl, Option-cases, find?,
}
use text.Mathlib.TextEquality.{eq_iff}
use kw_awards_voting_platfom.Models.State.{CacheKey, throttle, sms_budget, Counter}
use kw_awards_voting_platfom.Cache.{
  second, key_eq, is_live, cache_get, cache_set, cache_add, cache_incr, raise_first, count_one,
  add_absent, incr_found, or_set,
}

pub key_eq_refl : (k : CacheKey) → key_eq k k ≡ true
unfolding key_eq
key_eq_refl (throttle s d b) = ground (arith, eq_iff s s, text_eq_refl d)
key_eq_refl (sms_budget d) = ground arith

-- Keys that are equal are equal to the same keys.
key_eq-left : (j k l : CacheKey) → key_eq j k ≡ true → key_eq j l ≡ key_eq k l
unfolding key_eq
key_eq-left (throttle s d b) (throttle s' d' b') (throttle s'' d'' b'') h =
    ground (arith, eq_iff s s', text_eq→eq d d')
key_eq-left (throttle s d b) (throttle s' d' b') (sms_budget c) h = refl
key_eq-left (throttle s d b) (sms_budget c) l h = absurd (ground arith)
key_eq-left (sms_budget c) (throttle s' d' b') l h = absurd (ground arith)
key_eq-left (sms_budget a) (sms_budget b) (sms_budget c) h = ground arith
key_eq-left (sms_budget a) (sms_budget b) (throttle s d c) h = refl

abbrev live_counter : ℕ → CacheKey → List Counter → Option Counter
live_counter now key cache = find? (is_live now key) cache

-- At `now` the key is not in the cache (`n` is 0), or its counter stands at `n` and stays until `until`.
abbrev pub Counts : ℕ → CacheKey → ℕ → ℕ → List Counter → Type 0
Counts now key until n cache =
    ((n ≡ 0) × (live_counter now key cache ≡ none))
    ⊎ ((c : Counter) × (live_counter now key cache ≡ some c)
        × (c.count ≡ n)
        × (until ≤ c.expires_at))

still_absent :
    (now later : ℕ) (key : CacheKey) (cache : List Counter)
    → now ≤ later
    → live_counter now key cache ≡ none
    → live_counter later key cache ≡ none
still_absent now later key [] l h = refl
still_absent now later key (x ∷ cache) l h = ground (arith, still_absent now later key cache)

still_live :
    (now later : ℕ) (key : CacheKey) (cache : List Counter) (c : Counter)
    → now ≤ later
    → later < c.expires_at
    → live_counter now key cache ≡ some c
    → live_counter later key cache ≡ some c
still_live now later key [] c l m h = absurd (ground arith)
still_live now later key (x ∷ cache) c l m h = ground (arith, still_live now later key cache c)

-- Time that passes, before `until`, changes nothing.
pub later-Counts :
    (now later : ℕ) (key : CacheKey) (until n : ℕ) (cache : List Counter)
    → now ≤ later
    → later < until
    → Counts now key until n cache
    → Counts later key until n cache
later-Counts now later key until n cache l m (inl (z, h)) =
    inl (z, still_absent now later key cache l h)
later-Counts now later key until n cache l m (inr (c, h, e, u)) =
    inr (c, still_live now later key cache c l (ground arith) h, e, u)

get_counter :
    (now : ℕ) (key : CacheKey) (cache : List Counter) (c : Counter)
    → live_counter now key cache ≡ some c
    → cache_get now key cache ≡ some c.count
unfolding cache_get
get_counter now key [] c h = absurd (ground arith)
get_counter now key (x ∷ cache) c h = ground (arith, get_counter now key cache c)

get_absent :
    (now : ℕ) (key : CacheKey) (cache : List Counter)
    → live_counter now key cache ≡ none
    → cache_get now key cache ≡ none
unfolding cache_get
get_absent now key [] h = refl
get_absent now key (x ∷ cache) h = ground (arith, get_absent now key cache)

absent_live :
    (now : ℕ) (key : CacheKey) (cache : List Counter)
    → cache_get now key cache ≡ none
    → live_counter now key cache ≡ none
unfolding cache_get
absent_live now key [] h = refl
absent_live now key (x ∷ cache) h = ground (arith, absent_live now key cache)

raised :
    (now : ℕ) (key : CacheKey) (cache : List Counter) (c : Counter)
    → live_counter now key cache ≡ some c
    → live_counter now key (raise_first now key cache) ≡ some (record c { count = suc c.count })
unfolding raise_first
raised now key [] c h = absurd (ground arith)
raised now key (x ∷ cache) c h = ground (arith, raised now key cache c)

pub count_one-Counts :
    (now timeout : ℕ) (key : CacheKey) (until n : ℕ) (cache : List Counter)
    → now < until
    → until ≤ now + timeout * second
    → Counts now key until n cache
    → let (count, cache') = count_one now key timeout cache in
      (count ≡ suc n) × Counts now key until (suc n) cache'
unfolding count_one cache_add add_absent cache_incr incr_found or_set cache_set cache_get
    raise_first
count_one-Counts now timeout key until n cache l m (inl (z, h)) = (
  ground (arith, get_absent now key cache h, key_eq_refl key),
  inr (
    record { key = key; count = 1; expires_at = now + timeout * second },
    ground (arith, get_absent now key cache h, key_eq_refl key),
    ground arith,
    m,
  ),
)
count_one-Counts now timeout key until n cache l m (inr (c, h, e, u)) = (
  ground (arith, get_counter now key cache c h),
  inr (
    record c { count = suc c.count },
    ground (arith, get_counter now key cache c h, raised now key cache c h),
    ground arith,
    u,
  ),
)

other_raised :
    (now : ℕ) (other key : CacheKey) (cache : List Counter)
    → key_eq other key ≡ false
    → live_counter now key (raise_first now other cache) ≡ live_counter now key cache
unfolding raise_first
other_raised now other key [] d = refl
other_raised now other key (x ∷ cache) d =
    ground (arith, other_raised now other key cache d, key_eq-left x.key other key)

other_counted :
    (now timeout : ℕ) (other key : CacheKey) (cache : List Counter)
    → key_eq other key ≡ false
    → live_counter now key (count_one now other timeout cache).1 ≡ live_counter now key cache
unfolding count_one cache_add add_absent cache_incr incr_found or_set cache_set cache_get
    raise_first
other_counted now timeout other key cache d = elim (Option-cases (cache_get now other cache)) [
  | inl absent ↦ ground (arith, absent, key_eq_refl other)
  | inr (n, there) ↦ ground (arith, there, other_raised now other key cache d)
]

-- A count on another key changes nothing.
pub count_one-other :
    (now timeout : ℕ) (other key : CacheKey) (until n : ℕ) (cache : List Counter)
    → key_eq other key ≡ false
    → Counts now key until n cache
    → Counts now key until n (count_one now other timeout cache).1
count_one-other now timeout other key until n cache d h =
    rw (other_counted now timeout other key cache d) h

-- A key that is not in the cache counts 0.
pub absent-Counts :
    (now : ℕ) (key : CacheKey) (until : ℕ) (cache : List Counter)
    → cache_get now key cache ≡ none
    → Counts now key until 0 cache
absent-Counts now key until cache h = inl (refl, absent_live now key cache h)
