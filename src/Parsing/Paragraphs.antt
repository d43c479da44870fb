-- ===== src/Parsing/Paragraphs.antt =====
-- `split_paragraphs` of backend/app/services/parsing/text.py.
pub mod Ink
pub mod Content
use secondbrain_ai.Prelude.{
  ℕ, zero, suc, ◌<◌, List, [], ◌∷◌, ◌++◌, map, flatten, take, drop, length, keep_if, ltb, ◌==◌,
  if◌then◌else◌,
}
use secondbrain_ai.Prelude.Text.{Text, is_space, strip, nonempty, onto_head}

-- `MAX_BLOCK_CHARS`
unfoldable pub max_block_chars : ℕ
max_block_chars = 4000

-- How much of the text `\s*\n` matches at its front, as far as it goes: all space up to the last line feed.
unfoldable pub gap : Text → ℕ
unfolding is_space
gap [] = 0
gap (c ∷ t) =
    let rest = gap t in
    if is_space c then (if ltb 0 rest then suc rest else if c == 10 then 1 else 0) else 0

-- `re.split(r"\n\s*\n", text)`; the number counts the characters of a match still to skip.
unfoldable pub split_gaps : ℕ → Text → List Text
unfolding gap
split_gaps k [] = [] ∷ []
split_gaps (suc k) (c ∷ t) = split_gaps k t
split_gaps zero (c ∷ t) =
    let skipped = split_gaps (gap t) t in
    let kept = split_gaps zero t in
    if c == 10 then (if ltb 0 (gap t) then [] ∷ skipped else onto_head c kept) else onto_head c kept

-- The `while` loop that cuts a paragraph at the limit, on fuel, with what follows it.
unfoldable pub cut_long : ℕ → ℕ → Text → List Text
cut_long zero limit t = []
cut_long (suc fuel) limit t =
    let rest = take limit t ∷ cut_long fuel limit (drop limit t) in
    if ltb limit (length t) then rest else if nonempty t then t ∷ [] else []

-- The pieces of a paragraph: none if it is blank. Each round takes a character at least.
unfoldable pub pieces_of : ℕ → Text → List Text
unfolding cut_long strip
pieces_of limit paragraph = cut_long (suc (length (strip paragraph))) limit (strip paragraph)

unfoldable pub split_paragraphs_within : ℕ → Text → List Text
unfolding pieces_of split_gaps
split_paragraphs_within limit t = flatten (map (pieces_of limit) (split_gaps zero t))

-- `split_paragraphs`
unfoldable pub split_paragraphs : Text → List Text
unfolding split_paragraphs_within max_block_chars
split_paragraphs t = split_paragraphs_within max_block_chars t
