-- ===== src/LogFilters/Masked.antt =====
-- What a log line shows of the phone numbers in it.
use kw_awards_voting_platfom.Prelude.{
  ℕ, suc, Bool, true, false, ◌&&◌, not, none, some, [], ◌∷◌, ◌++◌, Text, ◌≡◌, refl, ap, ◌∙◌, inl,
  inr, ◌⊎◌, arith, ◌==◌, leb, take, drop, length, all, Bool-cases,
}
use kw_awards_voting_platfom.Phone.{mask_phone}
use kw_awards_voting_platfom.LogFilters.{
  Classes, digits, joins, ends, match_digits, match_phone, mask_match, sub, mask_phones_in,
}

module _ (classes : Classes) where
  digits-all :
      (ds rest : Text)
      → all classes.is_decimal ds ≡ true
      → digits classes rest ≡ 0
      → digits classes (ds ++ rest) ≡ length ds
  unfolding digits
  digits-all [] rest h e = e
  digits-all (d ∷ ds) rest h e = ground (arith, digits-all ds rest)

  take_whole : (xs ys : Text) → take (length xs) (xs ++ ys) ≡ xs
  take_whole [] [] = refl
  take_whole [] (y ∷ ys) = refl
  take_whole (x ∷ xs) ys = ap (λ r. x ∷ r) (take_whole xs ys)

  drop_whole : (xs ys : Text) → drop (length xs) (xs ++ ys) ≡ ys
  drop_whole [] [] = refl
  drop_whole [] (y ∷ ys) = refl
  drop_whole (x ∷ xs) ys = drop_whole xs ys

  -- Digits, of which there are between 9 and 15, and what does not go on with a word.
  match_whole :
      (ds rest : Text)
      → all classes.is_decimal ds ≡ true
      → (leb 9 (length ds) && leb (length ds) 15) ≡ true
      → digits classes rest ≡ 0
      → ends classes rest ≡ true
      → match_phone classes (43 ∷ (ds ++ rest)) ≡ some (suc (length ds))
  unfolding match_phone match_digits
  match_whole ds rest h size e stops =
      rw (digits-all ds rest h e, size, drop_whole ds rest, stops) refl

  -- Without a digit, and without a sign at the end, nothing is matched.
  unfoldable pub is_plain : Text → Bool
  is_plain [] = true
  is_plain (c ∷ []) = not (classes.is_decimal c) && (not (c == 43) && not (joins classes c))
  is_plain (c ∷ d ∷ s) = not (classes.is_decimal c) && is_plain (d ∷ s)

  plain-first : (c : ℕ) (s : Text) → is_plain (c ∷ s) ≡ true → classes.is_decimal c ≡ false
  unfolding is_plain
  plain-first c [] h = ground arith
  plain-first c (d ∷ s) h = ground arith

  no_digits : (c : ℕ) (s : Text) → classes.is_decimal c ≡ false → digits classes (c ∷ s) ≡ 0
  unfolding digits
  no_digits c s h = ground arith

  no_match :
      (c : ℕ) (s : Text)
      → classes.is_decimal c ≡ false
      → ((c == 43) ≡ false) ⊎ (digits classes s ≡ 0)
      → match_phone classes (c ∷ s) ≡ none
  unfolding match_phone match_digits
  no_match c s h (inl other) = rw (other, no_digits c s h) refl
  no_match c s h (inr empty) = elim (Bool-cases (c == 43)) [
    | inl sign ↦ rw (sign, empty) refl
    | inr other ↦ rw (other, no_digits c s h) refl
  ]

  kept :
      (c : ℕ) (s : Text) (inside : Bool)
      → match_phone classes (c ∷ s) ≡ none
      → sub classes 0 inside (c ∷ s) ≡ c ∷ sub classes 0 (joins classes c) s
  unfolding sub
  kept c s true h = refl
  kept c s false h = rw h refl

  sub_match :
      (s : Text) (n : ℕ)
      → match_phone classes s ≡ some (suc n)
      → sub classes 0 false s ≡ mask_match classes (take (suc n) s) ++ sub classes (suc n) true s
  unfolding sub match_phone
  sub_match [] n h = absurd (ground arith)
  sub_match (c ∷ s) n h = rw h refl

  mask_match-mask_phone : (t : Text) → mask_match classes t ≡ mask_phone t
  unfolding mask_match mask_phone
  mask_match-mask_phone t = refl

  sub-plain :
      (c : ℕ) (pre rest : Text) (inside : Bool)
      → is_plain (c ∷ pre) ≡ true
      → sub classes 0 inside (c ∷ (pre ++ rest)) ≡ c ∷ (pre ++ sub classes 0 false rest)
  unfolding is_plain
  sub-plain c [] rest inside h =
      let step = kept c rest inside (no_match c rest (ground arith) (inl (ground arith))) in
      let out : joins classes c ≡ false = ground arith in
      step ∙ ap (λ b. c ∷ sub classes 0 b rest) out
  sub-plain c (d ∷ pre) rest inside h =
      let next : is_plain (d ∷ pre) ≡ true = ground arith in
      let step = kept c (d ∷ (pre ++ rest)) inside (
        no_match c (d ∷ (pre ++ rest)) (ground arith)
          (inr (no_digits d (pre ++ rest) (plain-first d pre next)))) in
      step ∙ ap (λ r. c ∷ r) (sub-plain d pre rest (joins classes c) next)

  module _ (words : (c : ℕ) → classes.is_decimal c ≡ true → classes.is_word c ≡ true) where
    -- The digits of a match are passed, and a word has been read.
    pass :
        (ds rest : Text)
        → all classes.is_decimal ds ≡ true
        → sub classes (length ds) true (ds ++ rest) ≡ sub classes 0 true rest
    unfolding sub
    pass [] rest h = refl
    pass (d ∷ ds) rest h =
        let word : joins classes d ≡ true = ground (arith, words d) in
        rw word (pass ds rest (ground arith))

    no_digits_after : (rest : Text) → ends classes rest ≡ true → digits classes rest ≡ 0
    unfolding digits
    no_digits_after [] h = refl
    no_digits_after (c ∷ s) h = ground (arith, words c)

    -- The line goes on after a number as a line of its own.
    abbrev pub go_on : Text → Text
    go_on [] = []
    go_on (c ∷ s) = c ∷ mask_phones_in classes s

    sub-go_on : (rest : Text) → ends classes rest ≡ true → sub classes 0 true rest ≡ go_on rest
    unfolding sub mask_phones_in
    sub-go_on [] h = refl
    sub-go_on (c ∷ s) h =
        let out : joins classes c ≡ false = ground arith in ap (λ b. c ∷ sub classes 0 b s) out

    masked_number :
        (d : ℕ) (ds rest : Text)
        → all classes.is_decimal (d ∷ ds) ≡ true
        → (leb 9 (length (d ∷ ds)) && leb (length (d ∷ ds)) 15) ≡ true
        → ends classes rest ≡ true
        → sub classes 0 false (43 ∷ d ∷ (ds ++ rest)) ≡ mask_phone (43 ∷ d ∷ ds) ++ go_on rest
    unfolding sub
    masked_number d ds rest h size stops =
        let found = match_whole (d ∷ ds) rest h size (no_digits_after rest stops) stops in
        let word : joins classes d ≡ true = ground (arith, words d) in
        sub_match (43 ∷ d ∷ (ds ++ rest)) (suc (length ds)) found
        ∙ ap (λ t. mask_match classes t ++ sub classes (length ds) (joins classes d) (ds ++ rest))
            (take_whole (43 ∷ d ∷ ds) rest)
        ∙ ap (λ b. mask_match classes (43 ∷ d ∷ ds) ++ sub classes (length ds) b (ds ++ rest)) word
        ∙ ap (λ t. mask_match classes (43 ∷ d ∷ ds) ++ t)
            (pass ds rest (ground arith) ∙ sub-go_on rest stops)
        ∙ ap (λ t. t ++ go_on rest) (mask_match-mask_phone (43 ∷ d ∷ ds))

    -- A log line shows an E.164 number of 9 to 15 digits as `mask_phone` shows it, under three
    -- conditions: the text before it has no digit; that text is empty, or its last character is neither a
    -- plus sign nor a full stop nor a character of a word; and the character after the number, if there is
    -- one, is neither a full stop nor a character of a word. The text before the number stays, and so
    -- does the character after it; what follows that is masked as a line of its own.
    pub mask_phones_in-mask_phone :
        (pre : Text) (d : ℕ) (ds rest : Text)
        → is_plain pre ≡ true
        → all classes.is_decimal (d ∷ ds) ≡ true
        → (leb 9 (length (d ∷ ds)) && leb (length (d ∷ ds)) 15) ≡ true
        → ends classes rest ≡ true
        → mask_phones_in classes (pre ++ ((43 ∷ d ∷ ds) ++ rest))
          ≡ pre ++ (mask_phone (43 ∷ d ∷ ds) ++ go_on rest)
    unfolding mask_phones_in
    mask_phones_in-mask_phone [] d ds rest plain h size stops = masked_number d ds rest h size stops
    mask_phones_in-mask_phone (c ∷ pre) d ds rest plain h size stops =
        sub-plain c pre (43 ∷ d ∷ (ds ++ rest)) false plain
        ∙ ap (λ t. c ∷ (pre ++ t)) (masked_number d ds rest h size stops)

    -- A number that a full stop follows is not masked.
    full_stop_shows :
        (d : ℕ) (ds : Text)
        → classes.is_decimal 46 ≡ false
        → all classes.is_decimal (d ∷ ds) ≡ true
        → match_phone classes (43 ∷ ((d ∷ ds) ++ (46 ∷ []))) ≡ none
    unfolding match_phone match_digits
    full_stop_shows d ds dot h =
        let stop : digits classes (46 ∷ []) ≡ 0 = no_digits 46 [] dot in
        rw (digits-all (d ∷ ds) (46 ∷ []) h stop, drop_whole (d ∷ ds) (46 ∷ [])) (ground arith)
