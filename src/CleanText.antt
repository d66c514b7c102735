-- ===== src/CleanText.antt =====
-- common/text.py: plain text from what users type. `Env.nfc` is `unicodedata.normalize("NFC", ...)` and
-- `Env.strip_tags` is Django's.
use kw_awards_voting_platfom.Prelude.{
  ℕ, suc, Bool, false, ◌&&◌, ◌||◌, not, List, [], ◌∷◌, ◌++◌, Text, map, filter, strip, ◌==◌, leb,
  if◌then◌else◌,
}
use kw_awards_voting_platfom.Models.State.{Env}

-- `_CONTROL_CHARS`
abbrev is_control : ℕ → Bool
is_control c =
    leb c 8 || ((c == 11 || c == 12) || ((leb 14 c && leb c 31) || (leb 127 c && leb c 159)))

abbrev is_inline : ℕ → Bool
is_inline c = c == 32 || c == 9

abbrev starts_inline : Text → Bool
starts_inline [] = false
starts_inline (c ∷ s) = is_inline c

-- `_INLINE_WS.sub(" ", s)`
unfoldable collapse : Text → Text
collapse [] = []
collapse (c ∷ s) =
    let rest = collapse s in
    if is_inline c then (if starts_inline s then rest else 32 ∷ rest) else c ∷ rest

abbrev starts_newline : Text → Bool
starts_newline [] = false
starts_newline (c ∷ s) = c == 10

-- `s.replace("\r\n", "\n")`
unfoldable unix_lines : Text → Text
unix_lines [] = []
unix_lines (c ∷ s) =
    let rest = unix_lines s in if c == 13 && starts_newline s then rest else c ∷ rest

abbrev add_to_first : ℕ → List Text → List Text
add_to_first c [] = (c ∷ []) ∷ []
add_to_first c (line ∷ rest) = (c ∷ line) ∷ rest

-- `s.split("\n")`
unfoldable split_lines : Text → List Text
split_lines [] = [] ∷ []
split_lines (c ∷ s) = let rest = split_lines s in if c == 10 then [] ∷ rest else add_to_first c rest

-- `"\n".join(lines)`
unfoldable join_lines : List Text → Text
join_lines [] = []
join_lines (line ∷ []) = line
join_lines (line ∷ next ∷ rest) = line ++ (10 ∷ join_lines (next ∷ rest))

-- `re.sub(r"\n{3,}", "\n\n", s)`, after `seen` newlines.
unfoldable squeeze_lines : ℕ → Text → Text
squeeze_lines seen [] = []
squeeze_lines seen (c ∷ s) =
    let after = squeeze_lines (suc seen) s in
    let fresh = squeeze_lines 0 s in
    if c == 10 then (if leb 2 seen then after else c ∷ after) else c ∷ fresh

abbrev line_end_to_space : ℕ → ℕ
line_end_to_space c = if c == 10 || c == 13 then 32 else c

unfoldable pub clean_text : Env → Bool → Text → Text
unfolding collapse unix_lines split_lines join_lines squeeze_lines
clean_text env multiline value =
    let text = env.strip_tags (filter (λ c. not (is_control c)) (env.nfc value)) in
    if multiline
    then strip (
        squeeze_lines 0
          (join_lines (map (λ line. strip (collapse line)) (split_lines (unix_lines text)))))
    else strip (collapse (map line_end_to_space text))
