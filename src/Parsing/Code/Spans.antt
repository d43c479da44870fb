-- ===== src/Parsing/Code/Spans.antt =====
-- Blocks that cite runs of lines of a file, one after the other.
use secondbrain_ai.Prelude.{
  ℕ, ◌+◌, ◌<◌, ◌≤◌, ◌≡◌, refl, Option, none, List, [], ◌∷◌, ◌++◌, arith, length, take, or_else,
}
use secondbrain_ai.Prelude.Text.{Text, strip, join}
use secondbrain_ai.Chunking.Blocks.{TextBlock}
use secondbrain_ai.Retrieval.Terms.{Unicode}
use secondbrain_ai.Parsing.Paragraphs.{max_block_chars}
use secondbrain_ai.Parsing.Code.{CodeReader, definition_of, line_range}

-- The last name that the lines define.
unfoldable pub last_definition : Unicode → Option Text → List Text → Option Text
last_definition u found [] = found
last_definition u found (l ∷ ls) = last_definition u (or_else (definition_of u l) found) ls

pub last_definition-append :
    (u : Unicode) (found : Option Text) (xs ys : List Text)
    → last_definition u found (xs ++ ys) ≡ last_definition u (last_definition u found xs) ys
unfolding last_definition
last_definition-append u found [] ys = refl
last_definition-append u found (x ∷ xs) ys =
    last_definition-append u (or_else (definition_of u x) found) xs ys

-- A block that cites some of the lines: it has their numbers, their text up to the limit, and the
-- name that the lines up to there define last.
pub record Cited (u : Unicode) (lines : List Text) (b : TextBlock) : Type 0 where
  pub before : List Text
  pub body : List Text
  pub after : List Text
  pub whole : lines ≡ before ++ (body ++ after)
  pub some_lines : 0 < length body
  pub range : b.metadata ≡ line_range (length before + 1) (length before + length body)
  pub text : b.text ≡ take max_block_chars (strip (join (10 ∷ []) body))
  pub section : b.section_title ≡ last_definition u none (before ++ body)

-- The blocks cite lines of the file, from the first number on and up to the last, in their order
-- and with no line in two blocks.
unfoldable pub Spans : Unicode → List Text → ℕ → List TextBlock → ℕ → Type 0
Spans u lines from [] to = from ≤ to
Spans u lines from (b ∷ bs) to =
    (c : Cited u lines b) × (from ≤ length c.before)
    × Spans u lines (length c.before + length c.body) bs to

pub Spans-append :
    (u : Unicode) (lines : List Text) (from : ℕ) (bs : List TextBlock) (mid : ℕ) (b : TextBlock)
    (c : Cited u lines b)
    → Spans u lines from bs mid
    → mid ≤ length c.before
    → Spans u lines from (bs ++ b ∷ []) (length c.before + length c.body)
unfolding Spans
Spans-append u lines from [] mid b c h k = (c, omega arith, omega arith)
Spans-append u lines from (x ∷ bs) mid b c (d, low, rest) k =
    (d, low, Spans-append u lines (length d.before + length d.body) bs mid b c rest k)

pub Spans-le :
    (u : Unicode) (lines : List Text) (from : ℕ) (bs : List TextBlock) (mid to : ℕ)
    → Spans u lines from bs mid
    → mid ≤ to
    → Spans u lines from bs to
unfolding Spans
Spans-le u lines from [] mid to h k = omega arith
Spans-le u lines from (x ∷ bs) mid to (d, low, rest) k =
    (d, low, Spans-le u lines (length d.before + length d.body) bs mid to rest k)

-- What holds when these lines of the file have been read.
pub record Read (u : Unicode) (lines : List Text) (seen : List Text) (r : CodeReader) : Type 0 where
  pub earlier : List Text
  pub seen_lines : seen ≡ earlier ++ r.buffer
  pub starts_at : r.start_line ≡ length earlier + 1
  pub named : r.definition ≡ last_definition u none seen
  pub spans : Spans u lines 0 r.blocks (length earlier)

-- After a flush no line waits, whatever the start of the next block.
pub record Flushed (u : Unicode) (lines : List Text) (seen : List Text) (r : CodeReader)
    : Type 0 where
  pub no_buffer : r.buffer ≡ []
  pub named : r.definition ≡ last_definition u none seen
  pub spans : Spans u lines 0 r.blocks (length seen)
