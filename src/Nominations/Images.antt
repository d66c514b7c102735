-- ===== src/Nominations/Images.antt =====
-- nominations/images.py: the validation and re-encoding of uploaded photos. Bytes are numbers.
pub mod Accepted
use kw_awards_voting_platfom.Prelude.{
  ℕ, suc, ◌+◌, ◌*◌, ◌≤◌, Bool, true, false, ◌&&◌, ◌||◌, not, Option, none, some, List, [], ◌∷◌,
  ◌++◌, Text, codes, padded, take, length, length-take, min, ltb, leb, ◌≡◌, refl, inl, inr, ◌⊎◌,
  arith, Bool-cases, Option-cases, if◌then◌else◌,
}

-- The formats of Pillow that the program tells apart, `ALLOWED_FORMATS` and the others.
pub data Format : Type 0 where
  jpeg png webp other_format : Format

-- The modes of Pillow images that it tells apart.
pub data Mode : Type 0 where
  rgb rgba l la palette other_mode : Mode

-- The package Pillow. `probe` opens the bytes and reads format and size from the header; `load` verifies
-- and decodes them. Both are `none` where Pillow raises. `flatten` pastes the image on a white background;
-- `from_bytes` makes an image of the same mode and size from the raw pixels alone.
pub record Pillow : Type 1 where
  pub Image : Type 0
  pub probe : List ℕ → Option (Format × ℕ × ℕ)
  pub load : List ℕ → Option Image
  pub exif_transpose : Image → Image
  pub mode : Image → Mode
  pub has_transparency : Image → Bool
  pub convert : Mode → Image → Image
  pub flatten : Image → Image
  pub from_bytes : Image → Image
  pub thumbnail : ℕ → Image → Image
  pub save : Format → Image → List ℕ

-- `settings.MAX_UPLOAD_BYTES`, `IMAGE_MAX_PIXELS` and `IMAGE_MAX_DIMENSION`
pub record Limits : Type 0 where
  pub max_upload_bytes : ℕ
  pub image_max_pixels : ℕ
  pub image_max_dimension : ℕ

-- The reasons of `InvalidImage`.
pub data Problem : Type 0 where
  empty_file too_large invalid_image unsupported_type too_many_pixels : Problem

pub data Processed : Type 0 where
  invalid : Problem → Processed
  -- `ContentFile`: bytes and name
  file : List ℕ → Text → Processed

abbrev pub is_allowed_format : Format → Bool
is_allowed_format other_format = false
is_allowed_format _ = true

-- The stored extension, for an allowed format.
abbrev pub extension : Format → Text
extension jpeg = codes "jpg"
extension png = codes "png"
extension webp = codes "webp"
extension other_format = []

module _ (lib : Pillow) where
  -- `_has_alpha`
  unfoldable pub has_alpha : lib.Image → Bool
  has_alpha image = elim (lib.mode image) [
    | rgba ↦ true
    | la ↦ true
    | palette ↦ lib.has_transparency image
    | _ ↦ false
  ]

  to_rgb : Mode → lib.Image → lib.Image
  to_rgb rgb image = image
  to_rgb _ image = lib.convert rgb image

  for_jpeg : lib.Image → lib.Image
  unfolding has_alpha to_rgb
  for_jpeg image =
      if has_alpha image
      then lib.flatten (lib.convert rgba image)
      else to_rgb (lib.mode image) image

  to_storable : Mode → lib.Image → lib.Image
  unfolding has_alpha
  to_storable rgb image = image
  to_storable rgba image = image
  to_storable l image = image
  to_storable _ image = lib.convert (if has_alpha image then rgba else rgb) image

  for_others : lib.Image → lib.Image
  unfolding to_storable
  for_others image = to_storable (lib.mode image) image

  -- `_normalise_mode`
  unfoldable pub normalise_mode : Format → lib.Image → lib.Image
  unfolding for_jpeg for_others
  normalise_mode jpeg image = for_jpeg image
  normalise_mode _ image = for_others image

  -- The image that is saved: nothing of the upload but its pixels, shrunk to the limit.
  unfoldable pub clean_image : Limits → Format → lib.Image → lib.Image
  clean_image limits format image =
      lib.thumbnail limits.image_max_dimension
        (lib.from_bytes (normalise_mode format (lib.exif_transpose image)))

  stored : Limits → ℕ → Format → Option lib.Image → Processed
  stored limits uuid format none = invalid invalid_image
  stored limits uuid format (some image) =
      file (lib.save format (clean_image limits format image))
        (padded 16 32 uuid ++ (46 ∷ extension format))

  probed : Limits → ℕ → List ℕ → Option (Format × ℕ × ℕ) → Processed
  unfolding stored
  probed limits uuid bytes none = invalid invalid_image
  probed limits uuid bytes (some (format, width, height)) =
      if not (is_allowed_format format)
      then invalid unsupported_type
      else if ltb limits.image_max_pixels (width * height)
      then invalid too_many_pixels
      else stored limits uuid format (lib.load bytes)

  -- `process_image`; `uuid` is the random name of the file.
  unfoldable pub process_image : Limits → ℕ → List ℕ → Processed
  unfolding probed
  process_image limits uuid uploaded =
      let bytes = take (suc limits.max_upload_bytes) uploaded in
      if leb (length bytes) 0
      then invalid empty_file
      else if ltb limits.max_upload_bytes (length bytes)
      then invalid too_large
      else probed limits uuid bytes (lib.probe bytes)
