-- ===== src/Parsing/Code/Truncated.antt =====
-- A source file in which a block grows past the limit: what is behind the limit is in no block.
use secondbrain_ai.Prelude.{
  ℕ, suc, ◌+◌, ◌<◌, ◌≤◌, ◌≡◌, refl, sym, ap, ◌∙◌, true, false, none, List, [], ◌∷◌, ◌++◌, map,
  arith, length, take, ltb, append_assoc, append-nil, All,
}
use secondbrain_ai.Prelude.Text.{Text, strip, join}
use secondbrain_ai.Retrieval.Terms.{Unicode}
use secondbrain_ai.Parsing.Base.{text_of_block}
use secondbrain_ai.Parsing.Paragraphs.{max_block_chars}
use secondbrain_ai.Parsing.Code.{
  CodeReader, definition_of, add_code, flush_code_lines, flush_code, total_chars, start_definition,
  push_line, close_long, read_code_line, read_code_lines, new_code_reader, code_blocks,
}

total-append : (xs ys : List Text) → total_chars (xs ++ ys) ≡ total_chars xs + total_chars ys
unfolding total_chars
total-append [] ys = omega arith
total-append (x ∷ xs) ys = omega (arith, total-append xs ys)

module _ (u : Unicode) where
  -- A line that defines nothing and does not fill the buffer waits with the others.
  waits :
      (number : ℕ) (l : Text) (r : CodeReader)
      → definition_of u l ≡ none
      → total_chars (r.buffer ++ l ∷ []) ≤ max_block_chars
      → read_code_line u number l r ≡ push_line l r
  unfolding read_code_line close_long start_definition
  waits number l r e h =
      let short : ltb max_block_chars (total_chars (r.buffer ++ l ∷ [])) ≡ false = ground arith in
      rw e (rw short refl)

  all_wait :
      (number : ℕ) (ls : List Text) (r : CodeReader)
      → All (λ x. definition_of u x ≡ none) ls
      → total_chars (r.buffer ++ ls) ≤ max_block_chars
      → read_code_lines u number ls r ≡ record r { buffer = r.buffer ++ ls }
  unfolding read_code_lines
  all_wait number [] r e h =
      ap (λ (b : List Text). record r { buffer = b }) (sym (append-nil r.buffer))
  all_wait number (l ∷ ls) r e h =
      let split = append_assoc r.buffer (l ∷ []) ls in
      let fits : total_chars ((r.buffer ++ l ∷ []) ++ ls) ≤ max_block_chars = rw split h in
      let first : total_chars (r.buffer ++ l ∷ []) ≤ max_block_chars =
        omega (arith, total-append (r.buffer ++ l ∷ []) ls) in
      ap (read_code_lines u (suc number) ls) (waits number l r e.0 first)
      ∙ all_wait (suc number) ls (push_line l r) e.1 fits
      ∙ ap (λ (b : List Text). record r { buffer = b }) split

  read-append :
      (number : ℕ) (xs ys : List Text) (r : CodeReader)
      → read_code_lines u number (xs ++ ys) r
        ≡ read_code_lines u (length xs + number) ys (read_code_lines u number xs r)
  unfolding read_code_lines
  read-append number [] ys r = let e : 0 + number ≡ number = omega arith in rw e refl
  read-append number (x ∷ xs) ys r =
      read-append (suc number) xs ys (read_code_line u number x r)
      ∙ ap
          (λ n.
            read_code_lines u n ys
              (read_code_lines u (suc number) xs (read_code_line u number x r)))
          (omega arith)

-- One block is made of the lines that wait.
one_block :
    (number : ℕ) (body : Text) (r : CodeReader)
    → r.blocks ≡ []
    → 0 < length body
    → (map text_of_block (add_code number body r).blocks ≡ take max_block_chars body ∷ [])
      × ((add_code number body r).buffer ≡ [])
unfolding add_code
one_block number [] r e h = absurd (omega arith)
one_block number (c ∷ body) r e h = (rw e refl, refl)

flush_one_more :
    (number : ℕ) (ls : List Text) (l : Text) (r : CodeReader)
    → flush_code_lines number (ls ++ l ∷ []) r
      ≡ add_code number (strip (join (10 ∷ []) (ls ++ l ∷ []))) r
unfolding flush_code_lines
flush_one_more number [] l r = refl
flush_one_more number (k ∷ ls) l r = refl

flush_nothing : (number : ℕ) (r : CodeReader) → r.buffer ≡ [] → flush_code number r ≡ r
unfolding flush_code flush_code_lines
flush_nothing number r h = rw (h, flush_code_lines) refl

module _ (u : Unicode) (ls : List Text) (l : Text) where
  abbrev whole_body : Text
  whole_body = strip (join (10 ∷ []) (ls ++ l ∷ []))

  -- The line that fills the buffer closes the block.
  closes :
      (number : ℕ) (r : CodeReader)
      → definition_of u l ≡ none
      → r.buffer ≡ ls
      → max_block_chars < total_chars (ls ++ l ∷ [])
      → read_code_line u number l r
        ≡ record (add_code number whole_body (push_line l r)) { start_line = number + 1 }
  unfolding read_code_line close_long start_definition flush_code
  closes number r none_here e h =
      let long : ltb max_block_chars (total_chars (r.buffer ++ l ∷ [])) ≡ true =
        rw e (ground arith) in
      rw none_here (
        rw long (
          ap (λ (x : CodeReader). record x { start_line = number + 1 })
            (flush_one_more number r.buffer l (push_line l r)
              ∙ ap
                  (λ (b : List Text).
                    add_code number (strip (join (10 ∷ []) (b ++ l ∷ []))) (push_line l r))
                  e)))

  -- If no line of a file defines a name, its lines but the last are together within the limit, the
  -- lines with the last are over it, and so is the text without space at its ends, then its one block is
  -- that text cut at the limit: whatever is behind the limit is in no block.
  pub code_blocks_cut :
      All (λ x. definition_of u x ≡ none) ls
      → definition_of u l ≡ none
      → total_chars ls ≤ max_block_chars
      → max_block_chars < total_chars (ls ++ l ∷ [])
      → max_block_chars < length (strip (join (10 ∷ []) (ls ++ l ∷ [])))
      → map text_of_block (code_blocks u (ls ++ l ∷ []))
        ≡ take max_block_chars (strip (join (10 ∷ []) (ls ++ l ∷ []))) ∷ []
  unfolding code_blocks read_code_lines
  code_blocks_cut plain plain_last fits over longer =
      let r : CodeReader = record new_code_reader { buffer = ls } in
      let n = length ls + 1 in
      let shut : CodeReader = record (add_code n whole_body (push_line l r)) {
        start_line = n + 1;
      } in
      let one = one_block n whole_body (push_line l r) refl (omega arith) in
      let read : read_code_lines u 1 (ls ++ l ∷ []) new_code_reader ≡ shut =
        read-append u 1 ls (l ∷ []) new_code_reader
        ∙ ap (λ x. read_code_line u n l x) (all_wait u 1 ls new_code_reader plain fits)
        ∙ closes n r plain_last refl over in
      ap (λ (x : CodeReader). map text_of_block (flush_code (length (ls ++ l ∷ [])) x).blocks) read
      ∙ ap (λ (x : CodeReader). map text_of_block x.blocks)
          (flush_nothing (length (ls ++ l ∷ [])) shut one.1)
      ∙ one.0
