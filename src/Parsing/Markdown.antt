-- ===== src/Parsing/Markdown.antt =====
-- `MarkdownParser` of backend/app/services/parsing/text.py.
pub mod Content
pub mod Anchors
use secondbrain_ai.Prelude.{
  ℕ, zero, suc, Bool, true, false, not, ◌&&◌, ◌||◌, Option, none, some, List, [], ◌∷◌, ◌++◌, map,
  drop, ltb, leb, ◌==◌, if◌then◌else◌,
}
use secondbrain_ai.Prelude.Text.{
  Text, codes, is_space, lstrip, rstrip, strip, nonempty, starts_with, join, splitlines,
}
use secondbrain_ai.Chunking.Blocks.{TextBlock, Metadata, str}
use secondbrain_ai.Parsing.Paragraphs.{split_paragraphs}
use secondbrain_ai.Parsing.Base.{ParsedDocument, parsed_document, section_block}

-- The variables of `MarkdownParser.parse`.
pub record Reader : Type 0 where
  pub blocks : List TextBlock
  pub section : Option Text
  pub level : Option ℕ
  pub buffer : List Text
  pub in_fence : Bool

-- How many `#` stand at the front.
unfoldable pub hashes : Text → ℕ
hashes [] = 0
hashes (c ∷ t) = let rest = hashes t in if c == 35 then suc rest else 0

unfoldable pub push_hash : ℕ → Text → Text
push_hash c [] = if c == 35 then [] else c ∷ []
push_hash c (d ∷ u) = c ∷ d ∷ u

-- The text without the `#` at its end.
unfoldable pub strip_hashes : Text → Text
unfolding push_hash
strip_hashes [] = []
strip_hashes (c ∷ t) = push_hash c (strip_hashes t)

abbrev pub first_is_space : Text → Bool
unfolding is_space
first_is_space [] = false
first_is_space (c ∷ t) = is_space c

-- `_HEADING.match(line)`: the level, and `group(2)`, the least text before `\s*#*$`. One to six `#`
-- count if a space follows them all.
unfoldable pub heading_of : Text → Option (ℕ × Text)
unfolding hashes first_is_space lstrip rstrip strip_hashes
heading_of line =
    let level = hashes line in
    let rest = drop level line in
    if (ltb 0 level && leb level 6) && first_is_space rest
    then some (level, rstrip (strip_hashes (lstrip rest)))
    else none

-- `_FENCE.match(line)`
unfoldable pub is_fence : Text → Bool
unfolding lstrip starts_with
is_fence line = starts_with (codes "```") (lstrip line) || starts_with (codes "~~~") (lstrip line)

-- The blocks of a body in the section that is read.
unfoldable pub add_body : Text → Reader → Reader
unfolding split_paragraphs
add_body [] r = record r { buffer = [] }
add_body (c ∷ body) r = record r {
  buffer = [];
  blocks = r.blocks ++ map (section_block r.section r.level) (split_paragraphs (c ∷ body));
}

abbrev pub body_of : List Text → Text
body_of buffer = strip (join (10 ∷ []) buffer)

-- `flush`
unfoldable pub flush_lines : List Text → Reader → Reader
unfolding add_body strip join
flush_lines [] r = r
flush_lines (l ∷ ls) r = add_body (body_of (l ∷ ls)) r

unfoldable pub flush_section : Reader → Reader
unfolding flush_lines
flush_section r = flush_lines r.buffer r

abbrev pub keep_line : Text → Reader → Reader
keep_line line r = record r { buffer = r.buffer ++ line ∷ [] }

-- A heading, after the flush: it is content too.
unfoldable pub start_section : ℕ → Text → Reader → Reader
start_section level title r = record r {
  blocks = r.blocks ++ section_block (some title) (some level) title ∷ [];
  section = some title;
  level = some level;
}

unfoldable pub read_plain : Text → Option (ℕ × Text) → Reader → Reader
unfolding flush_section start_section strip
read_plain line none r = keep_line line r
read_plain line (some (level, title)) r = start_section level (strip title) (flush_section r)

-- A `#` in a fenced block is a comment.
unfoldable pub heading_unless : Bool → Text → Option (ℕ × Text)
unfolding heading_of
heading_unless true line = none
heading_unless false line = heading_of line

-- One round of the loop over the lines.
unfoldable pub read_line : Text → Reader → Reader
unfolding is_fence heading_unless read_plain
read_line line r =
    if is_fence line
    then keep_line line (record r { in_fence = not r.in_fence })
    else read_plain line (heading_unless r.in_fence line) r

unfoldable pub read_lines : List Text → Reader → Reader
unfolding read_line
read_lines [] r = r
read_lines (l ∷ ls) r = read_lines ls (read_line l r)

abbrev pub new_reader : Reader
new_reader = record { blocks = []; section = none; level = none; buffer = []; in_fence = false }

abbrev pub is_level_one : Option ℕ → Bool
is_level_one none = false
is_level_one (some n) = n == 1

-- The text of the first block at level 1.
unfoldable pub title_of : List TextBlock → Option Text
title_of [] = none
title_of (b ∷ bs) =
    let rest = title_of bs in if is_level_one b.heading_level then some b.text else rest

-- `{"title": title} if title else {}`
abbrev pub title_metadata : Option Text → Metadata
title_metadata none = []
title_metadata (some []) = []
title_metadata (some (c ∷ t)) = ("title", str (c ∷ t)) ∷ []

unfoldable pub markdown_blocks : Text → List TextBlock
unfolding read_lines flush_section splitlines
markdown_blocks t = (flush_section (read_lines (splitlines t) new_reader)).blocks

-- `MarkdownParser.parse` of the text that was read.
unfoldable pub parse_markdown : Text → ParsedDocument
unfolding markdown_blocks title_of
parse_markdown t =
    let blocks = markdown_blocks t in parsed_document blocks (title_metadata (title_of blocks)) []
