-- ===== src/Voting/Otp/Live.antt =====
-- The table of challenges: at most one live challenge per voter, none with too many attempts.
use kw_awards_voting_platfom.Prelude.{
  ℕ, ◌≤◌, ◌<◌, Bool, true, false, some, List, [], ◌∷◌, ◌==◌, ◌≡◌, refl, ==_iff, any, find?,
  count_where, All, Bool-cases, inl, inr, any, arith,
}
use kw_awards_voting_platfom.Models.Voting.{Challenge}
use kw_awards_voting_platfom.Voting.Otp.{is_live_for, expire_live}
use kw_awards_voting_platfom.Voting.Otp.Verify.{count_attempt, consume}

-- From `now` on every voter has at most one live challenge.
abbrev pub OneLive : ℕ → List Challenge → Type 0
OneLive now rows = (id t : ℕ) → now ≤ t → count_where (is_live_for id t) rows ≤ 1

-- After the live challenges of a voter are expired, that voter has none from then on.
expired :
    (id now t : ℕ) (rows : List Challenge)
    → now ≤ t
    → count_where (is_live_for id t) (expire_live id now rows) ≡ 0
unfolding expire_live
expired id now t [] h = refl
expired id now t (c ∷ rows) h = ground (arith, expired id now t rows h)

expire_live-count :
    (id other now t : ℕ) (rows : List Challenge)
    → now ≤ t
    → count_where (is_live_for other t) (expire_live id now rows)
      ≤ count_where (is_live_for other t) rows
unfolding expire_live
expire_live-count id other now t [] h = omega arith
expire_live-count id other now t (c ∷ rows) h =
    ground (arith, expire_live-count id other now t rows h)

pub count_attempt-count :
    (id other t : ℕ) (rows : List Challenge)
    → count_where (is_live_for other t) (count_attempt id rows)
      ≡ count_where (is_live_for other t) rows
unfolding count_attempt
count_attempt-count id other t [] = refl
count_attempt-count id other t (c ∷ rows) = ground (arith, count_attempt-count id other t rows)

consume-count :
    (id other now t : ℕ) (rows : List Challenge)
    → count_where (is_live_for other t) (consume id now rows)
      ≤ count_where (is_live_for other t) rows
unfolding consume
consume-count id other now t [] = omega arith
consume-count id other now t (c ∷ rows) = ground (arith, consume-count id other now t rows)

-- Issuing a challenge: those of its voter are expired first.
pub issue-OneLive :
    (before now : ℕ) (new : Challenge) (rows : List Challenge)
    → before ≤ now
    → OneLive before rows
    → OneLive now (new ∷ expire_live new.voter now rows)
issue-OneLive before now new rows later one id t h = ground (
  arith,
  expired new.voter now t rows h,
  expire_live-count new.voter id now t rows h,
  one id t (ground arith),
  ==_iff new.voter id,
)

pub attempt-OneLive :
    (before now id : ℕ) (rows : List Challenge)
    → before ≤ now
    → OneLive before rows
    → OneLive now (count_attempt id rows) × OneLive now (consume id now (count_attempt id rows))
attempt-OneLive before now id rows later one = (
  (λ other t h. ground (arith, count_attempt-count id other t rows, one other t (ground arith))),
  (λ other t h. ground (
    arith,
    consume-count id other now t (count_attempt id rows),
    count_attempt-count id other t rows,
    one other t (ground arith),
  )),
)

abbrev pub has_id : ℕ → Challenge → Bool
has_id id d = d.id == id

-- The primary key.
abbrev pub Distinct : List Challenge → Type 0
Distinct [] = Unit
Distinct (c ∷ rows) = (any (has_id c.id) rows ≡ false) × Distinct rows

pub any-expire_live :
    (id now k : ℕ) (rows : List Challenge)
    → any (has_id k) (expire_live id now rows) ≡ any (has_id k) rows
unfolding expire_live
any-expire_live id now k [] = refl
any-expire_live id now k (c ∷ rows) = ground (arith, any-expire_live id now k rows)

any-count_attempt :
    (id k : ℕ) (rows : List Challenge)
    → any (has_id k) (count_attempt id rows) ≡ any (has_id k) rows
unfolding count_attempt
any-count_attempt id k [] = refl
any-count_attempt id k (c ∷ rows) = ground (arith, any-count_attempt id k rows)

any-consume :
    (id now k : ℕ) (rows : List Challenge)
    → any (has_id k) (consume id now rows) ≡ any (has_id k) rows
unfolding consume
any-consume id now k [] = refl
any-consume id now k (c ∷ rows) = ground (arith, any-consume id now k rows)

pub expire_live-Distinct :
    (id now : ℕ) (rows : List Challenge) → Distinct rows → Distinct (expire_live id now rows)
unfolding expire_live
expire_live-Distinct id now [] h = tt
expire_live-Distinct id now (c ∷ rows) h =
    (ground (arith, any-expire_live id now c.id rows), expire_live-Distinct id now rows h.1)

pub count_attempt-Distinct :
    (id : ℕ) (rows : List Challenge) → Distinct rows → Distinct (count_attempt id rows)
unfolding count_attempt
count_attempt-Distinct id [] h = tt
count_attempt-Distinct id (c ∷ rows) h =
    (ground (arith, any-count_attempt id c.id rows), count_attempt-Distinct id rows h.1)

pub consume-Distinct :
    (id now : ℕ) (rows : List Challenge) → Distinct rows → Distinct (consume id now rows)
unfolding consume
consume-Distinct id now [] h = tt
consume-Distinct id now (c ∷ rows) h =
    (ground (arith, any-consume id now c.id rows), consume-Distinct id now rows h.1)

-- No challenge has more attempts than the limit.
abbrev pub Bounded : ℕ → List Challenge → Type 0
Bounded limit rows = All (λ (c : Challenge). c.attempts ≤ limit) rows

pub expire_live-Bounded :
    (limit id now : ℕ) (rows : List Challenge)
    → Bounded limit rows
    → Bounded limit (expire_live id now rows)
unfolding expire_live
expire_live-Bounded limit id now [] h = tt
expire_live-Bounded limit id now (c ∷ rows) h =
    (ground arith, expire_live-Bounded limit id now rows h.1)

pub consume-Bounded :
    (limit id now : ℕ) (rows : List Challenge)
    → Bounded limit rows
    → Bounded limit (consume id now rows)
unfolding consume
consume-Bounded limit id now [] h = tt
consume-Bounded limit id now (c ∷ rows) h = (ground arith, consume-Bounded limit id now rows h.1)

count_attempt-absent :
    (limit id : ℕ) (rows : List Challenge)
    → any (has_id id) rows ≡ false
    → Bounded limit rows
    → Bounded limit (count_attempt id rows)
unfolding count_attempt
count_attempt-absent limit id [] a h = tt
count_attempt-absent limit id (c ∷ rows) a h =
    (ground arith, count_attempt-absent limit id rows (ground arith) h.1)

has_found :
    (p : Challenge → Bool) (rows : List Challenge) (c : Challenge)
    → find? p rows ≡ some c
    → any (has_id c.id) rows ≡ true
has_found p [] c f = absurd (ground arith)
has_found p (x ∷ rows) c f = ground (arith, has_found p rows c)

-- The identifier names one row, so counting an attempt on a challenge below the limit stays within it.
pub count_attempt-Bounded :
    (limit : ℕ) (p : Challenge → Bool) (rows : List Challenge) (c : Challenge)
    → find? p rows ≡ some c
    → c.attempts < limit
    → Distinct rows
    → Bounded limit rows
    → Bounded limit (count_attempt c.id rows)
unfolding count_attempt
count_attempt-Bounded limit p [] c f a d h = tt
count_attempt-Bounded limit p (x ∷ rows) c f a d h = elim (Bool-cases (p x)) [
  | inl this ↦ (ground arith, count_attempt-absent limit c.id rows (ground arith) h.1)
  | inr other ↦ (
    ground (arith, has_found p rows c),
    count_attempt-Bounded limit p rows c (ground arith) a d.1 h.1,
  )
]
