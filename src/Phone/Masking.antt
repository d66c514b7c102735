-- ===== src/Phone/Masking.antt =====
-- What `mask_phone` shows and what it hides.
use kw_awards_voting_platfom.Prelude.{
  ◌-◌, ◌≡◌, inl, inr, ◌++◌, Text, arith, leb, take, drop, length, replicate, Bool-cases,
  length-append, length-take, length-drop, length-replicate,
}
use kw_awards_voting_platfom.Phone.{mask_phone, star}

-- A masked number is as long as the number.
pub length-mask_phone : (s : Text) → length (mask_phone s) ≡ length s
unfolding mask_phone
length-mask_phone s = elim (Bool-cases (leb (length s) 7)) [
  | inl short ↦ rw short (length-replicate (length s) star)
  | inr long ↦ rw long (
      ground (
        arith,
        length-append (take 5 s) (replicate (length s - 7) star ++ drop (length s - 2) s),
        length-append (replicate (length s - 7) star) (drop (length s - 2) s),
        length-take 5 s,
        length-replicate (length s - 7) star,
        length-drop (length s - 2) s,
      ))
]

-- Two numbers of one length that agree on the first five and the last two digits are shown alike,
-- so a mask tells nothing else about the number.
pub mask_phone_hides :
    (s t : Text)
    → length s ≡ length t
    → take 5 s ≡ take 5 t
    → drop (length s - 2) s ≡ drop (length t - 2) t
    → mask_phone s ≡ mask_phone t
unfolding mask_phone
mask_phone_hides s t n first last = rw (n, first, (rw n at last))
