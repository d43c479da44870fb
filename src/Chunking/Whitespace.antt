-- ===== src/Chunking/Whitespace.antt =====
-- `normalise_whitespace`: the two substitutions and the final `strip`.
pub mod Tidy
use secondbrain_ai.Prelude.{
  ℕ, zero, suc, ◌+◌, ◌≤◌, ◌<◌, ◌≡◌, ◌≢◌, refl, Bool, true, false, ◌||◌, List, [], ◌∷◌, arith, ltb,
  ◌==◌, if◌then◌else◌, All,
}
use secondbrain_ai.Prelude.Text.{Text, codes, strip}

abbrev is_blank : ℕ → Bool
is_blank c = c == 32 || c == 9

-- `re.sub(r"[ \t]+", " ", text)`: the flag says that a run of blanks is being read.
unfoldable pub collapse_blanks : Bool → Text → Text
collapse_blanks run [] = []
collapse_blanks run (c ∷ t) =
    let rest = collapse_blanks (is_blank c) t in
    if is_blank c then (if run then rest else 32 ∷ rest) else c ∷ rest

-- `re.sub(r"\n{3,}", "\n\n", text)`: the number counts the line breaks of the run that were kept.
unfoldable pub collapse_lines : ℕ → Text → Text
collapse_lines k [] = []
collapse_lines k (c ∷ t) =
    if c == 10
    then (if ltb k 2 then 10 ∷ collapse_lines (suc k) t else collapse_lines k t)
    else c ∷ collapse_lines 0 t

unfoldable pub normalise_whitespace : Text → Text
unfolding collapse_blanks collapse_lines strip
normalise_whitespace t = strip (collapse_lines 0 (collapse_blanks false t))
