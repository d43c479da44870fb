-- ===== src/Parsing/Code/Lines.antt =====
-- The lines that the blocks of a source file cite.
use secondbrain_ai.Prelude.{
  ℕ, suc, ◌+◌, ◌-◌, ◌<◌, ◌≤◌, ◌≡◌, refl, sym, ap, subst, ◌∙◌, inl, inr, Option, none, some, List,
  [], ◌∷◌, ◌++◌, arith, length, take, ltb, Bool-cases, or_else, append_assoc, append-nil,
  length-append,
}
use secondbrain_ai.Prelude.Text.{Text, strip, join}
use secondbrain_ai.Retrieval.Terms.{Unicode}
use secondbrain_ai.Parsing.Paragraphs.{max_block_chars}
use secondbrain_ai.Parsing.Code.{
  CodeReader, definition_of, line_range, add_code, flush_code_lines, flush_code, total_chars,
  start_definition, push_line, close_long, read_code_line, read_code_lines, new_code_reader,
  code_blocks,
}
use secondbrain_ai.Parsing.Code.Spans.{
  last_definition, last_definition-append, Cited, Spans, Spans-append, Spans-le, Read, Flushed,
}

module _ (u : Unicode) (lines seen rest : List Text) (whole : lines ≡ seen ++ rest) where
  add_code-Flushed :
      (body : Text) (ls : List Text) (r : CodeReader)
      → r.buffer ≡ ls
      → 0 < length ls
      → body ≡ strip (join (10 ∷ []) ls)
      → Read u lines seen r
      → Flushed u lines seen (add_code (length seen) body r)
  unfolding add_code
  add_code-Flushed [] ls r waits filled e h =
      let shorter : length h.earlier ≤ length seen =
        omega (arith, ap length h.seen_lines, length-append h.earlier r.buffer) in
      record {
        no_buffer = refl;
        named = h.named;
        spans = Spans-le u lines 0 r.blocks (length h.earlier) (length seen) h.spans shorter;
      }
  add_code-Flushed (c ∷ body) ls r waits filled e h =
      let seen_ls : seen ≡ h.earlier ++ ls =
        h.seen_lines ∙ ap (λ (x : List Text). h.earlier ++ x) waits in
      let long : length seen ≡ length h.earlier + length ls =
        ap length seen_ls ∙ length-append h.earlier ls in
      let cited : Cited u lines (record {
        text = take max_block_chars (c ∷ body);
        page_number = none;
        section_title = r.definition;
        heading_level = none;
        metadata = line_range r.start_line (length seen);
      }) =
        record {
          before = h.earlier;
          body = ls;
          after = rest;
          whole =
              whole ∙ ap (λ (x : List Text). x ++ rest) seen_ls ∙ append_assoc h.earlier ls rest;
          some_lines = filled;
          range = rw (h.starts_at, long) refl;
          text = ap (take max_block_chars) e;
          section = h.named ∙ ap (last_definition u none) seen_ls;
        } in
      record {
        no_buffer = refl;
        named = h.named;
        spans =
            subst (λ n. Spans u lines 0 (add_code (length seen) (c ∷ body) r).blocks n) (sym long)
              (Spans-append u lines 0 r.blocks (length h.earlier) _ cited h.spans (omega arith));
      }

  flush_code_lines-Flushed :
      (ls : List Text) (r : CodeReader)
      → r.buffer ≡ ls
      → Read u lines seen r
      → Flushed u lines seen (flush_code_lines (length seen) ls r)
  unfolding flush_code_lines
  flush_code_lines-Flushed [] r waits h =
      let all_seen : length h.earlier ≤ length seen =
        omega (arith, ap length h.seen_lines, length-append h.earlier r.buffer) in
      record {
        no_buffer = waits;
        named = h.named;
        spans = Spans-le u lines 0 r.blocks (length h.earlier) (length seen) h.spans all_seen;
      }
  flush_code_lines-Flushed (l ∷ ls) r waits h =
      add_code-Flushed (strip (join (10 ∷ []) (l ∷ ls))) (l ∷ ls) r waits (omega arith) refl h

  pub flush_code-Flushed :
      (r : CodeReader) → Read u lines seen r → Flushed u lines seen (flush_code (length seen) r)
  unfolding flush_code
  flush_code-Flushed r h = flush_code_lines-Flushed r.buffer r refl h

last_definition-one :
    (u : Unicode) (seen : List Text) (l : Text)
    → last_definition u none (seen ++ l ∷ [])
      ≡ or_else (definition_of u l) (last_definition u none seen)
unfolding last_definition
last_definition-one u seen l = last_definition-append u none seen (l ∷ [])

module _ (u : Unicode) (lines seen rest : List Text) (l : Text)
    (whole : lines ≡ seen ++ l ∷ rest) where
  start_definition-Read :
      (number : ℕ) (o : Option Text) (r : CodeReader)
      → number ≡ length seen + 1
      → definition_of u l ≡ o
      → Read u lines seen r
      → Read u lines (seen ++ l ∷ []) (push_line l (start_definition number o r))
  unfolding start_definition
  start_definition-Read number none r n e h = record {
    earlier = h.earlier;
    seen_lines =
        ap (λ (x : List Text). x ++ l ∷ []) h.seen_lines ∙ append_assoc h.earlier r.buffer (l ∷ []);
    starts_at = h.starts_at;
    named =
        h.named
        ∙ sym (last_definition-one u seen l ∙ ap (λ o. or_else o (last_definition u none seen)) e);
    spans = h.spans;
  }
  start_definition-Read number (some name) r n e h =
      let k : number - 1 ≡ length seen = omega arith in
      let f : Flushed u lines seen (flush_code (number - 1) r) =
        subst (λ m. Flushed u lines seen (flush_code m r)) (sym k)
          (flush_code-Flushed u lines seen (l ∷ rest) whole r h) in
      record {
        earlier = seen;
        seen_lines = ap (λ (x : List Text). seen ++ (x ++ l ∷ [])) (sym f.no_buffer);
        starts_at = n;
        named =
            sym
              (last_definition-one u seen l ∙ ap (λ o. or_else o (last_definition u none seen)) e);
        spans = f.spans;
      }

  close_long-Read :
      (number : ℕ) (r : CodeReader)
      → number ≡ length seen + 1
      → Read u lines (seen ++ l ∷ []) r
      → Read u lines (seen ++ l ∷ []) (close_long number r)
  unfolding close_long
  close_long-Read number r n h = elim (Bool-cases (ltb max_block_chars (total_chars r.buffer))) [
    | inr short ↦ rw short h
    | inl long ↦
        let k : length (seen ++ l ∷ []) ≡ number = omega (arith, length-append seen (l ∷ [])) in
        let f : Flushed u lines (seen ++ l ∷ []) (flush_code number r) =
          subst (λ m. Flushed u lines (seen ++ l ∷ []) (flush_code m r)) k
            (flush_code-Flushed u lines (seen ++ l ∷ []) rest
              (whole ∙ sym (append_assoc seen (l ∷ []) rest)) r h) in
        rw long (record {
          earlier = seen ++ l ∷ [];
          seen_lines =
              sym (append-nil (seen ++ l ∷ []))
              ∙ ap (λ (x : List Text). (seen ++ l ∷ []) ++ x) (sym f.no_buffer);
          starts_at = ap (λ (m : ℕ). m + 1) (sym k);
          named = f.named;
          spans = f.spans;
        })
  ]

  read_code_line-Read :
      (number : ℕ) (r : CodeReader)
      → number ≡ length seen + 1
      → Read u lines seen r
      → Read u lines (seen ++ l ∷ []) (read_code_line u number l r)
  unfolding read_code_line
  read_code_line-Read number r n h =
      close_long-Read number (push_line l (start_definition number (definition_of u l) r)) n
        (start_definition-Read number (definition_of u l) r n refl h)

read_code_lines-Read :
    (u : Unicode) (lines seen rest : List Text) (number : ℕ) (r : CodeReader)
    → lines ≡ seen ++ rest
    → number ≡ length seen + 1
    → Read u lines seen r
    → Read u lines lines (read_code_lines u number rest r)
unfolding read_code_lines
read_code_lines-Read u lines seen [] number r whole n h =
    subst (λ x. Read u lines x r) (sym (whole ∙ append-nil seen)) h
read_code_lines-Read u lines seen (l ∷ rest) number r whole n h =
    read_code_lines-Read u lines (seen ++ l ∷ []) rest (suc number) (read_code_line u number l r)
      (whole ∙ sym (append_assoc seen (l ∷ []) rest)) (omega (arith, length-append seen (l ∷ [])))
      (read_code_line-Read u lines seen rest l whole number r n h)

-- The blocks of a source file cite runs of its lines, in order and with no line in two: each has the
-- numbers of its first and last line, the text of these lines without space at the ends, cut at the
-- limit, and the name that is defined last up to its last line.
pub code_blocks-Spans :
    (u : Unicode) (lines : List Text) → Spans u lines 0 (code_blocks u lines) (length lines)
unfolding code_blocks Spans last_definition
code_blocks-Spans u lines =
    let fresh : Read u lines [] new_code_reader = record {
      earlier = [];
      seen_lines = refl;
      starts_at = refl;
      named = refl;
      spans = omega arith;
    } in
    let read = read_code_lines-Read u lines [] lines 1 new_code_reader refl refl fresh in
    (flush_code-Flushed u lines lines [] (sym (append-nil lines)) _ read).spans
