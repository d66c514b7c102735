-- ===== src/Phone.antt =====
-- common/phone.py: phone numbers, normalised by the `phonenumbers` package and masked for display.
pub mod Masking
use kw_awards_voting_platfom.Prelude.{
  ℕ, ◌-◌, ◌≡◌, Bool, true, false, ◌||◌, not, Option, none, some, List, [], ◌∷◌, ◌++◌, Text, ltb,
  leb, any, take, drop, length, replicate, arith, strip, is_empty, text_eq, if◌then◌else◌,
}

-- The types of `phonenumbers.PhoneNumberType` that the program tells apart.
pub data NumberType : Type 0 where
  mobile fixed_line_or_mobile other_type : NumberType

-- The `phonenumbers` package: `parse` is `none` where it raises `NumberParseException`.
pub record PhoneNumbers : Type 1 where
  pub Number : Type 0
  pub parse : Text → Text → Option Number
  pub is_valid_number : Number → Bool
  pub number_type : Number → NumberType
  pub region_code_for_number : Number → Text
  pub format_e164 : Number → Text

abbrev pub default_region : Text
default_region = 75 ∷ 69 ∷ []

abbrev max_raw_length : ℕ
max_raw_length = 32

abbrev is_mobile : NumberType → Bool
is_mobile mobile = true
is_mobile _ = false

-- `_ALLOWED_TYPES`
abbrev allowed_type : NumberType → Bool
allowed_type mobile = true
allowed_type fixed_line_or_mobile = true
allowed_type other_type = false

module _ (lib : PhoneNumbers) where
  -- `none` stands for `InvalidPhoneNumber`, which always carries the same message.
  unfoldable pub parse_phone : Text → Text → Option lib.Number
  parse_phone raw region =
      if is_empty (strip raw) || ltb max_raw_length (length raw)
      then none
      else elim (lib.parse (strip raw) region) [
        | none ↦ none
        | some number ↦ if lib.is_valid_number number then some number else none
      ]

  unfoldable pub normalize_phone : Text → Text → Option Text
  unfolding parse_phone
  normalize_phone raw region = elim (parse_phone raw region) [
    | none ↦ none
    | some number ↦
        if allowed_type (lib.number_type number) then some (lib.format_e164 number) else none
  ]

  unfoldable pub normalize_phone_strict : Text → List Text → Text → Option Text
  unfolding parse_phone
  normalize_phone_strict raw allowed_regions region = elim (parse_phone raw region) [
    | none ↦ none
    | some number ↦
        if not (is_mobile (lib.number_type number))
        then none
        else if any (text_eq (lib.region_code_for_number number)) allowed_regions
        then some (lib.format_e164 number)
        else none
  ]

  -- A number that the strict check of the OTP endpoint accepts is accepted, in the same form, by the
  -- check that `verify_otp`, the throttles and the filters apply.
  pub normalize_phone-normalize_phone_strict :
      (raw : Text) (regions : List Text) (region phone : Text)
      → normalize_phone_strict raw regions region ≡ some phone
      → normalize_phone raw region ≡ some phone
  unfolding normalize_phone normalize_phone_strict
  normalize_phone-normalize_phone_strict raw regions region phone h = ground arith

abbrev pub star : ℕ
star = 42

-- `mask_phone` on a text (`""` stands for `None` too).
unfoldable pub mask_phone : Text → Text
mask_phone value =
    if leb (length value) 7
    then replicate (length value) star
    else take 5 value ++ (replicate (length value - 7) star ++ drop (length value - 2) value)
