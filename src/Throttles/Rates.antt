-- ===== src/Throttles/Rates.antt =====
-- Rates as they are written in the settings are read back.
use kw_awards_voting_platfom.Prelude.{
  ℕ, zero, suc, ◌+◌, ◌-◌, ◌*◌, ◌/◌, ◌%◌, ◌<◌, ◌≤◌, true, false, some, [], ◌∷◌, ◌++◌, ◌≡◌, refl, ◌∙◌,
  inl, inr, Text, decimal, lstrip, ltb, All, arith, Bool-cases, if◌then◌else◌,
}
use mathlib.Core.Path.{subst}
use kw_awards_voting_platfom.Prelude.Texts.{decimal_within, digit, is_space}
use kw_awards_voting_platfom.Throttles.{
  read_digits, is_digit, starts_with_digit, read_unit, read_window, parse_rate, unit_seconds,
}

-- The number that a text of digits writes behind the number `n`.
abbrev value : ℕ → Text → ℕ
value n [] = n
value n (c ∷ s) = value (10 * n + (c - 48)) s

abbrev AreDigits : Text → Type 0
AreDigits s = All (λ c. is_digit c ≡ true) s

value-snoc : (n : ℕ) (s : Text) (c : ℕ) → value n (s ++ (c ∷ [])) ≡ 10 * value n s + (c - 48)
value-snoc n [] c = refl
value-snoc n (d ∷ s) c = value-snoc (10 * n + (d - 48)) s c

AreDigits-snoc : (s : Text) (c : ℕ) → AreDigits s → is_digit c ≡ true → AreDigits (s ++ (c ∷ []))
AreDigits-snoc [] c h d = (d, tt)
AreDigits-snoc (x ∷ s) c h d = (h.0, AreDigits-snoc s c h.1 d)

digit-is_digit : (n : ℕ) → n < 10 → (is_digit (digit n) ≡ true) × (digit n - 48 ≡ n)
digit-is_digit n h = ground arith

-- With more fuel than the number has digits, all of them are written. A number is more than enough.
decimal_within_lem :
    (fuel n : ℕ)
    → n < fuel
    → AreDigits (decimal_within fuel n) × (value 0 (decimal_within fuel n) ≡ n)
unfolding decimal_within
decimal_within_lem zero n h = absurd (omega arith)
decimal_within_lem (suc fuel) n h = elim (Bool-cases (ltb n 10)) [
  | inl small ↦
      let (is, back) = digit-is_digit (n % 10) (omega arith) in
      let below : n < 10 = ground arith in rw small ((is, tt), omega (arith, back))
  | inr large ↦
      let (is, back) = digit-is_digit (n % 10) (omega arith) in
      let above : 10 ≤ n = ground arith in
      let (rest, reads) = decimal_within_lem fuel (n / 10) (omega arith) in
      let snoc = value-snoc 0 (decimal_within fuel (n / 10)) (digit (n % 10)) in
      rw large (
        AreDigits-snoc (decimal_within fuel (n / 10)) (digit (n % 10)) rest is,
        snoc ∙ omega (arith, back, reads),
      )
]

snoc-cons : (s : Text) (c : ℕ) → (d : ℕ) × (rest : Text) × (s ++ (c ∷ []) ≡ d ∷ rest)
snoc-cons [] c = (c, [], refl)
snoc-cons (x ∷ s) c = (x, s ++ (c ∷ []), refl)

-- The text of a number is not empty.
decimal-cons : (n : ℕ) → (d : ℕ) × (rest : Text) × (decimal n ≡ d ∷ rest)
unfolding decimal decimal_within
decimal-cons n = snoc-cons (if ltb n 10 then [] else decimal_within n (n / 10)) (digit (n % 10))

decimal_lem : (n : ℕ) → AreDigits (decimal n) × (value 0 (decimal n) ≡ n)
unfolding decimal
decimal_lem n = decimal_within_lem (suc n) n (omega arith)

-- Digits are read up to the first code point that is none.
read_digits-append :
    (n : ℕ) (s t : Text)
    → AreDigits s
    → starts_with_digit t ≡ false
    → read_digits n (s ++ t) ≡ (value n s, t)
unfolding read_digits
read_digits-append n [] [] h e = refl
read_digits-append n [] (c ∷ t) h e = rw e refl
read_digits-append n (c ∷ s) t h e = rw h.0 (read_digits-append (10 * n + (c - 48)) s t h.1 e)

digit_no_space : (c : ℕ) → is_digit c ≡ true → is_space c ≡ false
unfolding is_space
digit_no_space c h = ground arith

-- A number, with what follows it, is read back, and nothing is stripped in front of it.
module _ (n : ℕ) (t : Text) (e : starts_with_digit t ≡ false) where
  read_digits-decimal : read_digits 0 (decimal n ++ t) ≡ (n, t)
  read_digits-decimal =
      let (digits, reads) = decimal_lem n in
      read_digits-append 0 (decimal n) t digits e ∙ rw reads refl

starts-decimal :
    (n : ℕ) (t : Text)
    → (starts_with_digit (decimal n ++ t) ≡ true) × (lstrip (decimal n ++ t) ≡ decimal n ++ t)
unfolding lstrip
starts-decimal n t =
    let (d, rest, same) = decimal-cons n in
    let (digits, reads) = decimal_lem n in
    let first : is_digit d ≡ true = (subst AreDigits same digits).0 in
    rw same (first, rw (digit_no_space d first) refl)

-- A rate that is written as a count, a slash, a multiplier and a unit, both numbers in decimal, is read
-- back: the count, and as many seconds as the multiplier times the unit.
pub parse_rate-decimal :
    (count multiplier unit seconds : ℕ)
    → unit_seconds unit ≡ some seconds
    → parse_rate (decimal count ++ (47 ∷ (decimal multiplier ++ (unit ∷ []))))
      ≡ some (count, multiplier * seconds)
unfolding parse_rate read_window read_unit lstrip is_space
parse_rate-decimal count multiplier unit seconds known =
    let after : Text = unit ∷ [] in
    let window : Text = 47 ∷ (decimal multiplier ++ after) in
    let no_digit : starts_with_digit after ≡ false = ground arith in
    let no_space : is_space unit ≡ false = unfold is_space in ground arith in
    rw
      (
        (starts-decimal count window).1,
        (starts-decimal count window).0,
        read_digits-decimal count window refl,
      )
      (rw
        (
          (starts-decimal multiplier after).1,
          (starts-decimal multiplier after).0,
          read_digits-decimal multiplier after no_digit,
        )
        (ground (arith, known, no_space)))
