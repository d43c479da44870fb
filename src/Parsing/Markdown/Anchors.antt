-- ===== src/Parsing/Markdown/Anchors.antt =====
-- The sections that the blocks of a Markdown file name.
use secondbrain_ai.Prelude.{
  ℕ, ◌<◌, ◌≤◌, ◌≡◌, refl, sym, ap, subst, ◌∙◌, inl, inr, ◌⊎◌, Bool, true, false, Option, none, some,
  List, [], ◌∷◌, ◌++◌, map, arith, Bool-cases, All,
}
use secondbrain_ai.Prelude.Text.{Text, strip}
use secondbrain_ai.Chunking.Blocks.{TextBlock}
use secondbrain_ai.Parsing.Paragraphs.{split_paragraphs, max_block_chars}
use secondbrain_ai.Parsing.Paragraphs.Content.{Citable, split_paragraphs-Citable}
use secondbrain_ai.Parsing.Base.{section_block}
use secondbrain_ai.Parsing.Markdown.{
  Reader, heading_of, heading_unless, is_fence, add_body, body_of, flush_lines, flush_section,
  keep_line, start_section, read_plain, read_line, read_lines, new_reader, markdown_blocks,
}
use secondbrain_ai.Prelude.Text.{splitlines}

-- A section and the level of its heading.
abbrev pub Anchor : Type 0
Anchor = Option Text × Option ℕ

abbrev pub anchor_of : TextBlock → Anchor
anchor_of b = (b.section_title, b.heading_level)

-- A block that is a heading: it names itself, at a level from 1 to 6.
abbrev pub Heading : TextBlock → Type 0
Heading b =
    (level : ℕ) × (b.heading_level ≡ some level)
    × (0 < level)
    × (level ≤ 6)
    × (b.section_title ≡ some b.text)

-- A block after this anchor: a paragraph under it, or a new heading.
abbrev pub Placed : Anchor → TextBlock → Type 0
Placed a b = ((anchor_of b ≡ a) × Citable max_block_chars b.text) ⊎ Heading b

-- Each block is a heading, or stands under the last heading before it.
abbrev pub Anchored : Anchor → List TextBlock → Type 0
Anchored a [] = Unit
Anchored a (b ∷ bs) = Placed a b × Anchored (anchor_of b) bs

abbrev last_anchor : Anchor → List TextBlock → Anchor
last_anchor a [] = a
last_anchor a (b ∷ bs) = last_anchor (anchor_of b) bs

Anchored-append :
    (a : Anchor) (xs ys : List TextBlock)
    → Anchored a xs
    → Anchored (last_anchor a xs) ys
    → Anchored a (xs ++ ys)
Anchored-append a [] ys h k = k
Anchored-append a (x ∷ xs) ys h k = (h.0, Anchored-append (anchor_of x) xs ys h.1 k)

last_anchor-append :
    (a : Anchor) (xs ys : List TextBlock)
    → last_anchor a (xs ++ ys) ≡ last_anchor (last_anchor a xs) ys
last_anchor-append a [] ys = refl
last_anchor-append a (x ∷ xs) ys = last_anchor-append (anchor_of x) xs ys

paragraphs-Anchored :
    (section : Option Text) (level : Option ℕ) (ps : List Text)
    → All (Citable max_block_chars) ps
    → Anchored (section, level) (map (section_block section level) ps)
paragraphs-Anchored section level [] h = tt
paragraphs-Anchored section level (p ∷ ps) h =
    (inl (refl, h.0), paragraphs-Anchored section level ps h.1)

last_anchor-paragraphs :
    (section : Option Text) (level : Option ℕ) (ps : List Text)
    → last_anchor (section, level) (map (section_block section level) ps) ≡ (section, level)
last_anchor-paragraphs section level [] = refl
last_anchor-paragraphs section level (p ∷ ps) = last_anchor-paragraphs section level ps

abbrev start_of_file : Anchor
start_of_file = (none, none)

abbrev current : Reader → Anchor
current r = (r.section, r.level)

-- What holds between two lines.
record Reading (r : Reader) : Type 0 where
  pub anchored : Anchored start_of_file r.blocks
  pub last : last_anchor start_of_file r.blocks ≡ current r

add_body-Reading : (body : Text) (r : Reader) → Reading r → Reading (add_body body r)
unfolding add_body
add_body-Reading [] r h = record { anchored = h.anchored; last = h.last }
add_body-Reading (c ∷ body) r h =
    let ps = split_paragraphs (c ∷ body) in
    let more = map (section_block r.section r.level) ps in
    record {
      anchored = Anchored-append start_of_file r.blocks more h.anchored (
          subst (λ a. Anchored a more) (sym h.last)
            (paragraphs-Anchored r.section r.level ps (split_paragraphs-Citable (c ∷ body))));
      last =
          last_anchor-append start_of_file r.blocks more
          ∙ ap (λ a. last_anchor a more) h.last
          ∙ last_anchor-paragraphs r.section r.level ps;
    }

flush_lines-Reading : (ls : List Text) (r : Reader) → Reading r → Reading (flush_lines ls r)
unfolding flush_lines
flush_lines-Reading [] r h = h
flush_lines-Reading (l ∷ ls) r h = add_body-Reading (body_of (l ∷ ls)) r h

flush_section-Reading : (r : Reader) → Reading r → Reading (flush_section r)
unfolding flush_section
flush_section-Reading r h = flush_lines-Reading r.buffer r h

keep_line-Reading : (line : Text) (r : Reader) → Reading r → Reading (keep_line line r)
keep_line-Reading line r h = record { anchored = h.anchored; last = h.last }

start_section-Reading :
    (level : ℕ) (title : Text) (r : Reader)
    → 0 < level
    → level ≤ 6
    → Reading r
    → Reading (start_section level title r)
unfolding start_section
start_section-Reading level title r low high h =
    let b = section_block (some title) (some level) title in
    record {
      anchored =
          Anchored-append start_of_file r.blocks (b ∷ []) h.anchored
            (inr (level, refl, low, high, refl), tt);
      last = last_anchor-append start_of_file r.blocks (b ∷ []);
    }

-- A heading has one to six `#`.
heading_unless_level :
    (fenced : Bool) (line : Text) (level : ℕ) (title : Text)
    → heading_unless fenced line ≡ some (level, title)
    → (0 < level) × (level ≤ 6)
unfolding heading_unless heading_of
heading_unless_level true line level title h = cc
heading_unless_level false line level title h = (ground arith, ground arith)

read_plain-Reading :
    (line : Text) (o : Option (ℕ × Text)) (r : Reader)
    → ((level : ℕ) (title : Text) → o ≡ some (level, title) → (0 < level) × (level ≤ 6))
    → Reading r
    → Reading (read_plain line o r)
unfolding read_plain
read_plain-Reading line none r range h = keep_line-Reading line r h
read_plain-Reading line (some (level, title)) r range h =
    let inside = range level title refl in
    start_section-Reading level (strip title) (flush_section r) inside.0 inside.1
      (flush_section-Reading r h)

read_line-Reading : (line : Text) (r : Reader) → Reading r → Reading (read_line line r)
unfolding read_line
read_line-Reading line r h = elim (Bool-cases (is_fence line)) [
  | inl fence ↦ rw fence (record { anchored = h.anchored; last = h.last })
  | inr other ↦ rw other (
      read_plain-Reading line (heading_unless r.in_fence line) r
        (heading_unless_level r.in_fence line) h)
]

read_lines-Reading : (ls : List Text) (r : Reader) → Reading r → Reading (read_lines ls r)
unfolding read_lines
read_lines-Reading [] r h = h
read_lines-Reading (l ∷ ls) r h = read_lines-Reading ls (read_line l r) (read_line-Reading l r h)

-- Each block of a Markdown file is a heading of level 1 to 6, which names itself as its section, or
-- is a paragraph within the limit that names the section and the level of the last heading before it
-- (none, before the first).
pub markdown_blocks-Anchored : (t : Text) → Anchored (none, none) (markdown_blocks t)
unfolding markdown_blocks
markdown_blocks-Anchored t =
    let fresh : Reading new_reader = record { anchored = tt; last = refl } in
    (flush_section-Reading _ (read_lines-Reading (splitlines t) new_reader fresh)).anchored
