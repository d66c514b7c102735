-- ===== src/LogFilters.antt =====
-- common/log_filters.py: phone numbers in log lines. `Classes` is what Python's regular expressions take
-- for `\d` and `\w`.
pub mod Masked
use kw_awards_voting_platfom.Prelude.{
  ℕ, zero, suc, ◌-◌, Bool, true, false, ◌&&◌, ◌||◌, not, Option, none, some, List, [], ◌∷◌, ◌++◌,
  Text, map, ◌==◌, leb, take, drop, length, replicate, if◌then◌else◌,
}
use kw_awards_voting_platfom.Phone.{star}

-- Tests of code points; every digit is a word character.
pub record Classes : Type 0 where
  pub is_decimal : ℕ → Bool
  pub is_word : ℕ → Bool

module _ (classes : Classes) where
  -- `[\w.]`
  abbrev pub joins : ℕ → Bool
  joins c = classes.is_word c || c == 46

  -- How many digits a text starts with.
  unfoldable pub digits : Text → ℕ
  digits [] = 0
  digits (c ∷ s) = let rest = digits s in if classes.is_decimal c then suc rest else 0

  -- `(?![\w.])`
  abbrev pub ends : Text → Bool
  ends [] = true
  ends (c ∷ s) = not (joins c)

  -- `\d{9,15}(?![\w.])`. A digit is a word character, so a match takes all the digits.
  unfoldable pub match_digits : Text → Option ℕ
  unfolding digits
  match_digits s =
      let n = digits s in if (leb 9 n && leb n 15) && ends (drop n s) then some n else none

  -- `\+?` in front of them. The length of the match.
  unfoldable pub match_phone : Text → Option ℕ
  unfolding match_digits
  match_phone [] = none
  match_phone (c ∷ s) =
      if c == 43
      then elim (match_digits s) [ none ↦ none | some n ↦ some (suc n) ]
      else match_digits (c ∷ s)

  -- `_mask_match`
  unfoldable pub mask_match : Text → Text
  mask_match text =
      if leb (length text) 7
      then replicate (length text) star
      else take 5 text ++ (replicate (length text - 7) star ++ drop (length text - 2) text)

  -- `_PHONE_RE.sub(_mask_match, text)`: `skip` characters of the last match are still to be passed, and
  -- `inside` is whether the character before joins, which `(?<![\w.])` refuses.
  unfoldable pub sub : ℕ → Bool → Text → Text
  unfolding match_phone mask_match
  sub skip inside [] = []
  sub (suc skip) inside (c ∷ s) = sub skip (joins c) s
  sub zero inside (c ∷ s) =
      let kept = c ∷ sub zero (joins c) s in
      if inside then kept else elim (match_phone (c ∷ s)) [
        | none ↦ kept
        | some zero ↦ kept
        | some (suc n) ↦ mask_match (take (suc n) (c ∷ s)) ++ sub n (joins c) s
      ]

  unfoldable pub mask_phones_in : Text → Text
  unfolding sub
  mask_phones_in text = sub zero false text

-- A value that a log line is formatted with: a text, or another object.
pub data Value : Type 0 where
  text : Text → Value
  other : ℕ → Value

-- `record.args`: nothing, a dictionary or a tuple.
pub data Args : Type 0 where
  no_args : Args
  by_name : List (Text × Value) → Args
  by_position : List Value → Args

pub record LogRecord : Type 0 where
  pub msg : Text
  pub args : Args

-- `PhoneMaskFilter._mask`
abbrev pub mask_value : Classes → Value → Value
mask_value classes (text s) = text (mask_phones_in classes s)
mask_value classes (other x) = other x

abbrev mask_args : Classes → Args → Args
mask_args classes no_args = no_args
mask_args classes (by_name args) =
    by_name (map (λ (item : Text × Value). (item.0, mask_value classes item.1)) args)
mask_args classes (by_position args) = by_position (map (mask_value classes) args)

-- `PhoneMaskFilter.filter`, which always lets the record through.
unfoldable pub filter_record : Classes → LogRecord → Bool × LogRecord
filter_record classes r =
    (true, record { msg = mask_phones_in classes r.msg; args = mask_args classes r.args })
