-- ===== src/Throttles/Windows.antt =====
-- How many requests a throttle lets through in a window.
use kw_awards_voting_platfom.Prelude.{
  ℕ, suc, ◌+◌, ◌*◌, ◌/◌, ◌-◌, ◌≤◌, ◌<◌, min, Bool, true, false, none, List, [], ◌∷◌, String, Text,
  ◌≡◌, inl, inr, text_eq, text_eq→eq, count_where, arith, if◌then◌else◌, Bool-cases,
}
use native.Mathlib.Nat.{div-mul-le_self, div-lt_iff_lt-mul}
use kw_awards_voting_platfom.Models.State.{Env, throttle, Counter}
use kw_awards_voting_platfom.Cache.{second, key_eq, cache_get, count_one}
use kw_awards_voting_platfom.Cache.Counting.{
  Counts, later-Counts, count_one-Counts, count_one-other, absent-Counts,
}
use kw_awards_voting_platfom.Throttles.{
  Verdict, allowed, refused, verdict, digest_of, count_request,
}

-- The window that a time falls in, and the end of it.
window_end :
    (width t b : ℕ) → 1 ≤ width → t / width ≡ b → (t < suc b * width) × (suc b * width ≤ t + width)
window_end width t b pos e = (
  (div-lt_iff_lt-mul {k = width} {x = t} {y = suc b} (omega arith)).0 (omega arith),
  ground (arith, div-mul-le_self t width),
)

abbrev is_allowed : Verdict → Bool
is_allowed allowed = true
is_allowed (refused n) = false

-- Requests of one scope, each with its identity and its time.
abbrev pub Calls : Type 0
Calls = List (Text × ℕ)

-- They come in order, not before `start`, and all in the window number `b`.
abbrev pub InWindow : ℕ → ℕ → ℕ → Calls → Type 0
InWindow width b start [] = Unit
InWindow width b start ((ident, t) ∷ rest) = (start ≤ t) × (t / width ≡ b) × InWindow width b t rest

module _ (env : Env) (scope : String) (limit window : ℕ) where
  -- How many of them with a given digest are let through.
  pub served : Text → Calls → List Counter → ℕ
  served digest [] cache = 0
  served digest ((ident, t) ∷ rest) cache =
      let (v, cache') = count_request env scope limit window ident t cache in
      (if text_eq (digest_of env ident) digest then (if is_allowed v then 1 else 0) else 0)
      + served digest rest cache'

  other_key :
      (d digest : Text) (a b : ℕ)
      → text_eq d digest ≡ false
      → key_eq (throttle scope d a) (throttle scope digest b) ≡ false
  unfolding key_eq
  other_key d digest a b h = rw h (ground arith)

  served-Counts :
      (digest : Text) (b start n : ℕ) (calls : Calls) (cache : List Counter)
      → 1 ≤ window
      → start < suc b * (window * second)
      → InWindow (window * second) b start calls
      → Counts start (throttle scope digest b) (suc b * (window * second)) n cache
      → served digest calls cache
        ≡ min (limit - n) (count_where (λ c. text_eq (digest_of env c.0) digest) calls)
  unfolding served count_request verdict
  served-Counts digest b start n [] cache pos s i h = omega arith
  served-Counts digest b start n ((ident, t) ∷ rest) cache pos s (l, e, i) h =
      let (before_end, within) = window_end (window * second) t b (omega arith) e in
      let now =
        later-Counts start t (throttle scope digest b) (suc b * (window * second)) n cache l
          before_end h in
      elim (Bool-cases (text_eq (digest_of env ident) digest)) [
        | inl ours ↦
            let d = text_eq→eq (digest_of env ident) digest ours in
            let key = throttle scope digest b in
            let (counts, now') =
              count_one-Counts t window key (suc b * (window * second)) n cache before_end within
                now in
            let rec =
              served-Counts digest b t (suc n) rest (count_one t key window cache).1 pos before_end
                i now' in
            rw ours (rw d (rw e (ground (arith, counts, rec))))
        | inr theirs ↦
            let other = throttle scope (digest_of env ident) (t / (window * second)) in
            let now' =
              count_one-other t window other (throttle scope digest b) (suc b * (window * second)) n
                cache (other_key (digest_of env ident) digest (t / (window * second)) b theirs)
                now in
            let rec =
              served-Counts digest b t n rest (count_one t other window cache).1 pos before_end i
                now' in
            rw theirs (ground (arith, rec))
      ]

  -- Requests of a scope in one window of at least a second, with no counter of the digest before
  -- them: of those with the digest exactly as many are let through as the limit says, or all if
  -- they are fewer, whatever other requests of the scope come in between.
  pub served_limit :
      (digest : Text) (b start : ℕ) (calls : Calls) (cache : List Counter)
      → 1 ≤ window
      → start / (window * second) ≡ b
      → InWindow (window * second) b start calls
      → cache_get start (throttle scope digest b) cache ≡ none
      → served digest calls cache
        ≡ min limit (count_where (λ c. text_eq (digest_of env c.0) digest) calls)
  served_limit digest b start calls cache pos e i absent =
      let (before_end, _) = window_end (window * second) start b (omega arith) e in
      ground (
        arith,
        served-Counts digest b start 0 calls cache pos before_end i (
            absent-Counts start (throttle scope digest b) (suc b * (window * second)) cache absent),
      )
