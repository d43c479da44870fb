-- ===== src/Parsing/Markdown/Content.antt =====
-- What the blocks of a Markdown file hold.
use secondbrain_ai.Prelude.{
  ℕ, ◌≡◌, refl, sym, ap, ap₂, ◌∙◌, inl, inr, Bool, true, false, not, Option, none, some, List, [],
  ◌∷◌, ◌++◌, map, flatten, arith, keep_if, drop, ◌==◌, Bool-cases, append_assoc, append-nil,
}
use secondbrain_ai.Prelude.Text.{Text, lstrip, rstrip, strip, join, splitlines}
use secondbrain_ai.Chunking.Blocks.{TextBlock}
use secondbrain_ai.Parsing.Paragraphs.{split_paragraphs}
use secondbrain_ai.Parsing.Paragraphs.Ink.{
  Inked, keep_if-append, keep_if-lstrip, keep_if-rstrip, keep_if-strip, keep_if-join,
  keep_if-splitlines,
}
use secondbrain_ai.Parsing.Paragraphs.Content.{flatten-append, keep_if-split_paragraphs}
use secondbrain_ai.Parsing.Base.{section_block, text_of_block}
use secondbrain_ai.Parsing.Markdown.{
  Reader, hashes, heading_unless, push_hash, strip_hashes, heading_of, is_fence, add_body, body_of,
  flush_lines, flush_section, keep_line, start_section, read_plain, read_line, read_lines,
  new_reader, markdown_blocks,
}

-- What the blocks say, one after the other.
abbrev pub texts_of_blocks : List TextBlock → Text
texts_of_blocks bs = flatten (map text_of_block bs)

pub texts-append :
    (xs ys : List TextBlock) → texts_of_blocks (xs ++ ys) ≡ texts_of_blocks xs ++ texts_of_blocks ys
unfolding flatten
texts-append [] ys = refl
texts-append (x ∷ xs) ys =
    rw (texts-append xs ys) (sym (append_assoc x.text (texts_of_blocks xs) (texts_of_blocks ys)))

pub texts-section_block :
    (section : Option Text) (level : Option ℕ) (ps : List Text)
    → texts_of_blocks (map (section_block section level) ps) ≡ flatten ps
unfolding flatten
texts-section_block section level [] = refl
texts-section_block section level (p ∷ ps) = rw (texts-section_block section level ps)

module _ (p : ℕ → Bool) (inked : Inked p) (plain : p 35 ≡ false) where
  hash_ink : (c : ℕ) → (c == 35) ≡ true → p c ≡ false
  hash_ink c h = let e : c ≡ 35 = ground arith in rw e plain

  keep_if-hashes : (t : Text) → keep_if p (drop (hashes t) t) ≡ keep_if p t
  unfolding hashes
  keep_if-hashes [] = refl
  keep_if-hashes (c ∷ t) = elim (Bool-cases (c == 35)) [
    | inl hash ↦ rw (hash_ink c hash) (rw hash (keep_if-hashes t))
    | inr other ↦ rw other refl
  ]

  keep_if-push_hash : (c : ℕ) (t : Text) → keep_if p (push_hash c t) ≡ keep_if p (c ∷ t)
  unfolding push_hash
  keep_if-push_hash c [] = ground (arith, hash_ink c)
  keep_if-push_hash c (d ∷ t) = refl

  keep_if-strip_hashes : (t : Text) → keep_if p (strip_hashes t) ≡ keep_if p t
  unfolding strip_hashes
  keep_if-strip_hashes [] = refl
  keep_if-strip_hashes (c ∷ t) =
      keep_if-push_hash c (strip_hashes t) ∙ ground (arith, keep_if-strip_hashes t)

  -- A heading has the ink of its line.
  keep_if-heading_of :
      (line : Text) (level : ℕ) (title : Text)
      → heading_of line ≡ some (level, title)
      → keep_if p title ≡ keep_if p line
  unfolding heading_of
  keep_if-heading_of line level title h =
      let rest = drop (hashes line) line in
      let found : rstrip (strip_hashes (lstrip rest)) ≡ title = ground arith in
      rw (← found) (
        keep_if-rstrip p inked (strip_hashes (lstrip rest))
        ∙ keep_if-strip_hashes (lstrip rest)
        ∙ keep_if-lstrip p inked rest
        ∙ keep_if-hashes line)

  keep_if-heading_unless :
      (fenced : Bool) (line : Text) (level : ℕ) (title : Text)
      → heading_unless fenced line ≡ some (level, title)
      → keep_if p title ≡ keep_if p line
  unfolding heading_unless
  keep_if-heading_unless true line level title h = cc
  keep_if-heading_unless false line level title h = keep_if-heading_of line level title h

  -- The ink of what was read: in the blocks, and in the lines that wait.
  abbrev ink_of : Reader → Text
  ink_of r = keep_if p (texts_of_blocks r.blocks ++ flatten r.buffer)

  ink-add_body :
      (body : Text) (r : Reader)
      → ink_of (add_body body r) ≡ keep_if p (texts_of_blocks r.blocks ++ body)
  unfolding add_body flatten
  ink-add_body [] r = refl
  ink-add_body (c ∷ body) r = rw (
    append-nil (
        texts_of_blocks
          (r.blocks ++ map (section_block r.section r.level) (split_paragraphs (c ∷ body)))),
    texts-append r.blocks (map (section_block r.section r.level) (split_paragraphs (c ∷ body))),
    texts-section_block r.section r.level (split_paragraphs (c ∷ body)),
    keep_if-append p (texts_of_blocks r.blocks) (flatten (split_paragraphs (c ∷ body))),
    keep_if-append p (texts_of_blocks r.blocks) (c ∷ body),
    keep_if-split_paragraphs p inked (c ∷ body),
  )

  ink-flush_lines :
      (ls : List Text) (r : Reader) → r.buffer ≡ ls → ink_of (flush_lines ls r) ≡ ink_of r
  unfolding flush_lines
  ink-flush_lines [] r h = refl
  ink-flush_lines (l ∷ ls) r h =
      ink-add_body (body_of (l ∷ ls)) r
      ∙ keep_if-append p (texts_of_blocks r.blocks) (body_of (l ∷ ls))
      ∙ ap (λ (u : Text). keep_if p (texts_of_blocks r.blocks) ++ u)
          (keep_if-strip p inked (join (10 ∷ []) (l ∷ ls)) ∙ keep_if-join p inked (l ∷ ls))
      ∙ sym (keep_if-append p (texts_of_blocks r.blocks) (flatten (l ∷ ls)))
      ∙ ap (λ (u : List Text). keep_if p (texts_of_blocks r.blocks ++ flatten u)) (sym h)

  ink-flush_section : (r : Reader) → ink_of (flush_section r) ≡ ink_of r
  unfolding flush_section
  ink-flush_section r = ink-flush_lines r.buffer r refl

buffer-add_body : (body : Text) (r : Reader) → (add_body body r).buffer ≡ []
unfolding add_body
buffer-add_body [] r = refl
buffer-add_body (c ∷ body) r = refl

buffer-flush_lines : (ls : List Text) (r : Reader) → r.buffer ≡ ls → (flush_lines ls r).buffer ≡ []
unfolding flush_lines
buffer-flush_lines [] r h = h
buffer-flush_lines (l ∷ ls) r h = buffer-add_body (body_of (l ∷ ls)) r

buffer-flush_section : (r : Reader) → (flush_section r).buffer ≡ []
unfolding flush_section
buffer-flush_section r = buffer-flush_lines r.buffer r refl

module _ (p : ℕ → Bool) (inked : Inked p) (plain : p 35 ≡ false) where
  ink-keep_line :
      (line : Text) (r : Reader)
      → ink_of p inked plain (keep_line line r) ≡ ink_of p inked plain r ++ keep_if p line
  unfolding flatten
  ink-keep_line line r = rw (
    flatten-append r.buffer (line ∷ []),
    append-nil line,
    ← append_assoc (texts_of_blocks r.blocks) (flatten r.buffer) line,
    keep_if-append p (texts_of_blocks r.blocks ++ flatten r.buffer) line,
  )

  ink-start_section :
      (level : ℕ) (title : Text) (r : Reader)
      → r.buffer ≡ []
      → ink_of p inked plain (start_section level title r)
        ≡ ink_of p inked plain r ++ keep_if p title
  unfolding flatten start_section
  ink-start_section level title r h =
      let told = texts_of_blocks r.blocks in
      ap
        (λ (u : List Text).
          keep_if p (texts_of_blocks (start_section level title r).blocks ++ flatten u))
        h
      ∙ ap (keep_if p) (
          append-nil (texts_of_blocks (start_section level title r).blocks)
          ∙ texts-append r.blocks (section_block (some title) (some level) title ∷ [])
          ∙ ap (λ (u : Text). told ++ u) (append-nil title))
      ∙ keep_if-append p told title
      ∙ ap (λ (u : Text). keep_if p u ++ keep_if p title)
          (sym (ap (λ (u : List Text). told ++ flatten u) h ∙ append-nil told))

  ink-read_plain :
      (line : Text) (o : Option (ℕ × Text)) (r : Reader)
      → ((level : ℕ) (title : Text) → o ≡ some (level, title) → keep_if p title ≡ keep_if p line)
      → ink_of p inked plain (read_plain line o r) ≡ ink_of p inked plain r ++ keep_if p line
  unfolding read_plain
  ink-read_plain line none r h = ink-keep_line line r
  ink-read_plain line (some (level, title)) r h =
      ink-start_section level (strip title) (flush_section r) (buffer-flush_section r)
      ∙ ap₂ (λ (u v : Text). u ++ v) (ink-flush_section p inked plain r)
          (keep_if-strip p inked title ∙ h level title refl)

  ink-read_line :
      (line : Text) (r : Reader)
      → ink_of p inked plain (read_line line r) ≡ ink_of p inked plain r ++ keep_if p line
  unfolding read_line
  ink-read_line line r = elim (Bool-cases (is_fence line)) [
    | inl fence ↦ rw fence (ink-keep_line line (record r { in_fence = not r.in_fence }))
    | inr other ↦ rw other (
        ink-read_plain line (heading_unless r.in_fence line) r
          (λ level title e. keep_if-heading_unless p inked plain r.in_fence line level title e))
  ]

  ink-read_lines :
      (ls : List Text) (r : Reader)
      → ink_of p inked plain (read_lines ls r) ≡ ink_of p inked plain r ++ keep_if p (flatten ls)
  unfolding read_lines flatten
  ink-read_lines [] r = sym (append-nil (ink_of p inked plain r))
  ink-read_lines (l ∷ ls) r =
      ink-read_lines ls (read_line l r)
      ∙ ap (λ (u : Text). u ++ keep_if p (flatten ls)) (ink-read_line l r)
      ∙ append_assoc (ink_of p inked plain r) (keep_if p l) (keep_if p (flatten ls))
      ∙ ap (λ (u : Text). ink_of p inked plain r ++ u) (sym (keep_if-append p l (flatten ls)))

  -- The blocks of a Markdown file hold, in order, every character of it that is neither space nor `#`.
  pub markdown_blocks_content :
      (t : Text) → keep_if p (texts_of_blocks (markdown_blocks t)) ≡ keep_if p t
  unfolding markdown_blocks flatten
  markdown_blocks_content t =
      let r = read_lines (splitlines t) new_reader in
      ap (keep_if p) (
        sym (
          ap (λ (u : List Text). texts_of_blocks (flush_section r).blocks ++ flatten u)
            (buffer-flush_section r)
          ∙ append-nil (texts_of_blocks (flush_section r).blocks)))
      ∙ ink-flush_section p inked plain r
      ∙ ink-read_lines (splitlines t) new_reader
      ∙ keep_if-splitlines p inked t
