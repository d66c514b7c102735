-- ===== src/Examples/Reports.antt =====
-- The dashboard, rates, the search of the audit log, errors and photos.
use kw_awards_voting_platfom.Prelude.{
  ℕ, ◌+◌, ◌*◌, ◌≤◌, Bool, true, false, ◌&&◌, ◌||◌, not, Option, none, some, List, [], ◌∷◌, ◌++◌,
  Text, codes, decimal, filter, length, padded, ◌==◌, leb, is_some, All, ◌≡◌, refl, arith,
}
use kw_awards_voting_platfom.Exceptions.Handler.{Framework}
use kw_awards_voting_platfom.Models.Voting.{Vote, is_active_vote}
use kw_awards_voting_platfom.Models.Audit.{AuditAction, AuditLog}
use kw_awards_voting_platfom.Audit.{entry_row, voter_entry}
use kw_awards_voting_platfom.Models.State.{Request}
use kw_awards_voting_platfom.Voting.Results.Stats.{CategoryStats, event_stats, category_of}
use kw_awards_voting_platfom.Voting.Results.Stats.Sums.{sum_of, event_stats_lem}
use kw_awards_voting_platfom.Nominations.Images.{
  Format, jpeg, Mode, rgb, Pillow, Limits, Processed, file, process_image,
}
use kw_awards_voting_platfom.Nominations.Images.Accepted.{
  HasModes, HasMetadata, Accepted, process_image_sound,
}
use kw_awards_voting_platfom.LogFilters.{Classes, mask_phones_in}
use kw_awards_voting_platfom.LogFilters.Masked.{is_plain, go_on, mask_phones_in-mask_phone}
use kw_awards_voting_platfom.Phone.{mask_phone}
use kw_awards_voting_platfom.Examples.Data.{env, amina, old_vote, phone, world, request_at}

abbrev one_day : ℕ → ℕ
one_day t = 0

has_award : is_some (category_of world.db old_vote) ≡ true
unfolding kw_awards_voting_platfom.Events.find_award
has_award = refl

event_stats_lem_example :
    (sum_of (λ row. row.1) (event_stats env one_day world.db 1).over_time
      ≡ (event_stats env one_day world.db 1).votes)
    × (sum_of (λ (c : CategoryStats). c.votes) (event_stats env one_day world.db 1).categories
        ≡ (event_stats env one_day world.db 1).votes)
    × ((event_stats env one_day world.db 1).voters ≤ (event_stats env one_day world.db 1).votes)
    × (length (filter is_active_vote (filter (λ (v : Vote). v.event == 1) world.db.votes))
          + (event_stats env one_day world.db 1).voided_votes
        ≡ length (filter (λ (v : Vote). v.event == 1) world.db.votes))
event_stats_lem_example = event_stats_lem env one_day world.db 1 (has_award, tt) (refl, tt)

abbrev asked : Request
asked = request_at 100 41

abbrev entry : AuditLog
entry =
    entry_row env 100 (some asked)
      (voter_entry env AuditAction.otp_requested (some amina) phone none [])

abbrev framework : Framework
framework = record {
  not_found = (404, "not_found");
  invalid = (400, "invalid");
  authentication_failed = (401, "authentication_failed");
  permission_denied = (403, "permission_denied");
  invalid_token = (401, "token_not_valid");
  other_codes = "throttled" ∷ [];
}

-- A package that takes every file for a JPEG image of ten times ten pixels, with some metadata.
abbrev pillow : Pillow
pillow = record {
  Image = Mode × List ℕ × List ℕ;
  probe = λ bytes. some (jpeg, 10, 10);
  load = λ bytes. some (rgb, bytes, 7 ∷ []);
  exif_transpose = λ i. i;
  mode = λ i. i.0;
  has_transparency = λ i. false;
  convert = λ m i. (m, i.1, i.2);
  flatten = λ i. (rgb, i.1, i.2);
  from_bytes = λ i. (i.0, i.1, []);
  thumbnail = λ n i. i;
  save = λ format i. i.1 ++ i.2;
}

modes : HasModes pillow
modes = record {
  convert = λ m i. refl;
  flatten = λ i. refl;
  from_bytes = λ i. refl;
  thumbnail = λ n i. refl;
}

bare : HasMetadata pillow
bare = record { metadata = λ i. i.2; from_bytes = λ i. refl; thumbnail = λ n i. refl }

abbrev limits : Limits
limits = record { max_upload_bytes = 100; image_max_pixels = 1000; image_max_dimension = 50 }

abbrev photo_name : Text
photo_name = padded 16 32 5 ++ codes ".jpg"

stored_photo : process_image pillow limits 5 (1 ∷ 2 ∷ []) ≡ file (1 ∷ 2 ∷ []) photo_name
unfolding process_image kw_awards_voting_platfom.Nominations.Images.clean_image
    kw_awards_voting_platfom.Nominations.Images.normalise_mode
stored_photo = refl

process_image_sound_example :
    Accepted pillow modes bare limits 5 (1 ∷ 2 ∷ []) (1 ∷ 2 ∷ []) photo_name
process_image_sound_example =
    process_image_sound pillow modes bare limits 5 (1 ∷ 2 ∷ []) (1 ∷ 2 ∷ []) photo_name stored_photo

-- ASCII digits, and letters, digits and the underscore.
abbrev ascii : Classes
ascii = record {
  is_decimal = λ c. leb 48 c && leb c 57;
  is_word = λ c.
      (leb 48 c && leb c 57) || ((leb 65 c && leb c 90) || (c == 95 || (leb 97 c && leb c 122)));
}

digits_are_words : (c : ℕ) → ascii.is_decimal c ≡ true → ascii.is_word c ≡ true
digits_are_words c h = ground (arith, h)

line_is_plain : is_plain ascii (codes "to ") ≡ true
unfolding is_plain
line_is_plain = refl

mask_phones_in-mask_phone_example :
    mask_phones_in ascii (codes "to +254712345678 sent")
    ≡ codes "to "
      ++ (mask_phone (codes "+254712345678") ++ go_on ascii digits_are_words (codes " sent"))
mask_phones_in-mask_phone_example =
    mask_phones_in-mask_phone ascii digits_are_words (codes "to ") 50 (codes "54712345678")
      (codes " sent") line_is_plain refl refl refl
