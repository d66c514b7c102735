-- ===== src/Nominations/Images/Accepted.antt =====
-- Which uploads are accepted, and what is stored of them.
use kw_awards_voting_platfom.Prelude.{
  ℕ, suc, ◌*◌, ◌≤◌, Bool, true, false, Option, none, some, List, [], ◌∷◌, ◌++◌, Text, padded, take,
  take-all, length, length-take, ltb, leb, ◌≡◌, refl, sym, ap, ◌∙◌, inl, inr, arith, Bool-cases,
  if◌then◌else◌,
}
use kw_awards_voting_platfom.Nominations.Images.{
  Format, jpeg, png, webp, other_format, Mode, rgb, rgba, l, Pillow, Limits, Processed, invalid,
  file, is_allowed_format, extension, has_alpha, for_jpeg, for_others, to_rgb, to_storable,
  normalise_mode, clean_image, stored, probed, process_image,
}

-- What Pillow documents of modes: converting makes the mode, pasting on white makes RGB, and neither
-- rebuilding nor shrinking an image changes its mode.
pub record HasModes (lib : Pillow) : Type 0 where
  pub convert : (m : Mode) (i : lib.Image) → lib.mode (lib.convert m i) ≡ m
  pub flatten : (i : lib.Image) → lib.mode (lib.flatten i) ≡ rgb
  pub from_bytes : (i : lib.Image) → lib.mode (lib.from_bytes i) ≡ lib.mode i
  pub thumbnail : (n : ℕ) (i : lib.Image) → lib.mode (lib.thumbnail n i) ≡ lib.mode i

-- What Pillow documents of what an image has besides its pixels, such as EXIF data, comments and colour
-- profiles, here a list: an image made from raw pixels has nothing of it, and shrinking adds nothing.
pub record HasMetadata (lib : Pillow) : Type 0 where
  pub metadata : lib.Image → List ℕ
  pub from_bytes : (i : lib.Image) → metadata (lib.from_bytes i) ≡ []
  pub thumbnail : (n : ℕ) (i : lib.Image) → metadata (lib.thumbnail n i) ≡ metadata i

-- The modes that a format stores.
abbrev pub can_store : Format → Mode → Bool
can_store jpeg rgb = true
can_store jpeg _ = false
can_store _ rgb = true
can_store _ rgba = true
can_store _ l = true
can_store _ _ = false

module _ (lib : Pillow) (modes : HasModes lib) (extra : HasMetadata lib) where
  to_rgb-mode : (m : Mode) (i : lib.Image) → lib.mode i ≡ m → lib.mode (to_rgb lib m i) ≡ rgb
  unfolding to_rgb
  to_rgb-mode rgb i h = h
  to_rgb-mode _ i h = modes.convert rgb i

  for_jpeg-mode : (i : lib.Image) → lib.mode (for_jpeg lib i) ≡ rgb
  unfolding for_jpeg
  for_jpeg-mode i = elim (Bool-cases (has_alpha lib i)) [
    | inl alpha ↦ rw alpha (modes.flatten (lib.convert rgba i))
    | inr opaque ↦ rw opaque (to_rgb-mode (lib.mode i) i refl)
  ]

  -- What is neither JPEG nor refused is stored as RGB, RGBA or grey.
  abbrev IsStorable : Mode → Type 0
  IsStorable m = can_store png m ≡ true

  converted :
      (b : Bool) (i : lib.Image) → IsStorable (lib.mode (lib.convert (if b then rgba else rgb) i))
  converted true i = rw (modes.convert rgba i) refl
  converted false i = rw (modes.convert rgb i) refl

  to_storable-mode :
      (m : Mode) (i : lib.Image) → lib.mode i ≡ m → IsStorable (lib.mode (to_storable lib m i))
  unfolding to_storable
  to_storable-mode rgb i h = rw h refl
  to_storable-mode rgba i h = rw h refl
  to_storable-mode l i h = rw h refl
  to_storable-mode _ i h = converted (has_alpha lib i) i

  normalise_mode-mode :
      (format : Format) (i : lib.Image)
      → is_allowed_format format ≡ true
      → can_store format (lib.mode (normalise_mode lib format i)) ≡ true
  unfolding normalise_mode for_others
  normalise_mode-mode jpeg i h = rw (for_jpeg-mode i) refl
  normalise_mode-mode png i h = to_storable-mode (lib.mode i) i refl
  normalise_mode-mode webp i h = to_storable-mode (lib.mode i) i refl
  normalise_mode-mode other_format i h = absurd (ground arith)

  clean_image-mode :
      (limits : Limits) (format : Format) (i : lib.Image)
      → is_allowed_format format ≡ true
      → can_store format (lib.mode (clean_image lib limits format i)) ≡ true
  unfolding clean_image
  clean_image-mode limits format i h =
      let normal = normalise_mode lib format (lib.exif_transpose i) in
      rw
        (
          modes.thumbnail limits.image_max_dimension (lib.from_bytes normal),
          modes.from_bytes normal,
        )
        (normalise_mode-mode format (lib.exif_transpose i) h)

  clean_image-metadata :
      (limits : Limits) (format : Format) (i : lib.Image)
      → extra.metadata (clean_image lib limits format i) ≡ []
  unfolding clean_image
  clean_image-metadata limits format i =
      let normal = normalise_mode lib format (lib.exif_transpose i) in
      extra.thumbnail limits.image_max_dimension (lib.from_bytes normal) ∙ extra.from_bytes normal

  clean_image-thumbnail :
      (limits : Limits) (format : Format) (i : lib.Image)
      → clean_image lib limits format i
        ≡ lib.thumbnail limits.image_max_dimension
            (lib.from_bytes (normalise_mode lib format (lib.exif_transpose i)))
  unfolding clean_image
  clean_image-thumbnail limits format i = refl

  -- What is known of an upload that is accepted.
  pub record Accepted (limits : Limits) (uuid : ℕ) (uploaded content : List ℕ) (name : Text)
      : Type 0 where
    pub format : Format
    pub width : ℕ
    pub height : ℕ
    pub image : lib.Image
    pub header : lib.probe uploaded ≡ some (format, width, height)
    pub decoded : lib.load uploaded ≡ some image
    pub not_empty : 1 ≤ length uploaded
    pub not_large : length uploaded ≤ limits.max_upload_bytes
    pub few_pixels : width * height ≤ limits.image_max_pixels
    pub allowed : is_allowed_format format ≡ true
    pub saved : lib.Image
    pub made :
        saved
        ≡ lib.thumbnail limits.image_max_dimension
            (lib.from_bytes (normalise_mode lib format (lib.exif_transpose image)))
    pub storable : can_store format (lib.mode saved) ≡ true
    pub bare : extra.metadata saved ≡ []
    pub bytes : content ≡ lib.save format saved
    pub named : name ≡ padded 16 32 uuid ++ (46 ∷ extension format)

  module _ (limits : Limits) (uuid : ℕ) (uploaded content : List ℕ) (name : Text) where
    loaded :
        (format : Format) (width height : ℕ)
        → lib.probe uploaded ≡ some (format, width, height)
        → 1 ≤ length uploaded
        → length uploaded ≤ limits.max_upload_bytes
        → width * height ≤ limits.image_max_pixels
        → is_allowed_format format ≡ true
        → (o : Option lib.Image) → lib.load uploaded ≡ o
        → stored lib limits uuid format o ≡ file content name
        → Accepted limits uuid uploaded content name
    unfolding stored
    loaded format width height header some_bytes few pixels allowed none e h = absurd (ground arith)
    loaded format width height header some_bytes few pixels allowed (some image) e h = record {
      format = format;
      width = width;
      height = height;
      image = image;
      header = header;
      decoded = e;
      not_empty = some_bytes;
      not_large = few;
      few_pixels = pixels;
      allowed = allowed;
      saved = clean_image lib limits format image;
      made = clean_image-thumbnail limits format image;
      storable = clean_image-mode limits format image allowed;
      bare = clean_image-metadata limits format image;
      bytes = sym (content_of h);
      named = sym (name_of h);
    }
      where
        content_or : Processed → List ℕ
        content_or (file bytes n) = bytes
        content_or (invalid problem) = []

        content_of : {a b : List ℕ} {m n : Text} → Path Processed (file a m) (file b n) → a ≡ b
        content_of e = ap content_or e

        name_or : Processed → Text
        name_or (file bytes n) = n
        name_or (invalid problem) = []

        name_of : {a b : List ℕ} {m n : Text} → Path Processed (file a m) (file b n) → m ≡ n
        name_of e = ap name_or e

    examined :
        (o : Option (Format × ℕ × ℕ))
        → lib.probe uploaded ≡ o
        → 1 ≤ length uploaded
        → length uploaded ≤ limits.max_upload_bytes
        → probed lib limits uuid uploaded o ≡ file content name
        → Accepted limits uuid uploaded content name
    unfolding probed
    examined none e some_bytes few h = absurd (ground arith)
    examined (some (format, width, height)) e some_bytes few h =
        elim (Bool-cases (is_allowed_format format)) [
          | inr refused ↦ absurd (ground arith)
          | inl allowed ↦ elim (Bool-cases (ltb limits.image_max_pixels (width * height))) [
            | inl many ↦ absurd (ground arith)
            | inr pixels ↦
                loaded format width height e some_bytes few (ground arith) allowed
                  (lib.load uploaded) refl (rw (allowed, pixels) at h)
          ]
        ]

    -- An upload that is accepted is not empty and not larger than the limit; its header names an allowed
    -- format and at most the allowed number of pixels, and it decodes. What is stored, under the random
    -- name with the extension of the format, is an image saved in that format: the decoded one, turned and
    -- brought to a mode, rebuilt from its raw pixels and shrunk to the limit. Its mode is one that the
    -- format can store, and it has no metadata, if Pillow treats modes and metadata as documented.
    pub process_image_sound :
        process_image lib limits uuid uploaded ≡ file content name
        → Accepted limits uuid uploaded content name
    unfolding process_image
    process_image_sound h =
        let cut = length-take (suc limits.max_upload_bytes) uploaded in
        elim (Bool-cases (leb (length (take (suc limits.max_upload_bytes) uploaded)) 0)) [
          | inl empty ↦ absurd (ground arith)
          | inr some_bytes ↦
              elim (Bool-cases (
                ltb limits.max_upload_bytes
                  (length (take (suc limits.max_upload_bytes) uploaded)))) [
                    | inl large ↦ absurd (ground arith)
                    | inr fits ↦
                        let few : length uploaded ≤ limits.max_upload_bytes = ground (arith, cut) in
                        let whole = take-all (suc limits.max_upload_bytes) uploaded (omega arith) in
                        examined (lib.probe uploaded) refl (ground (arith, cut)) few
                          (rw whole at (rw (some_bytes, fits) at h))
                  ]
        ]
