-- ===== src/Parsing/Delimited/Rows.antt =====
-- The rows that the blocks of a table cite.
use secondbrain_ai.Prelude.{
  ℕ, zero, suc, ◌+◌, ◌-◌, ◌<◌, ◌≡◌, ◌≢◌, ◌↔◌, ltb, ltb→lt, Bool-cases, refl, sym, ap, subst, ◌∙◌,
  inl, inr, Bool, true, keep_if, none, some, List, [], ◌∷◌, ◌++◌, map, take, drop, length, arith,
  All, append_assoc, length-append, take-append-drop,
}
use mathlib.Core.List.{Memᴰ}
use secondbrain_ai.Prelude.Text.{Text, codes, strip, join, nonempty}
use secondbrain_ai.Chunking.Blocks.{TextBlock, num}
use secondbrain_ai.Parsing.Base.{section_block}
use secondbrain_ai.Parsing.Delimited.{
  max_rows, pairs_of, row_block, add_row, row_blocks, parse_rows,
}

-- The columns of a row: a name of the header with the value below it, where there are both.
unfoldable pub columns_of : List Text → List Text → List (Text × Text)
columns_of (name ∷ names) (value ∷ values) = (name, value) ∷ columns_of names values
columns_of names values = []

-- What a block says of a column.
abbrev pub said : Text × Text → Text
said (name, value) = name ++ (codes ": " ++ strip value)

abbrev pub is_filled : Text × Text → Bool
is_filled (name, value) = nonempty (strip value)

-- What is said of a row: of each column, from left to right, whose value is not blank.
unfoldable pub cells : List Text → List Text → List Text
unfolding columns_of
cells header row = map said (keep_if is_filled (columns_of header row))

pairs_of-cells : (header row : List Text) → pairs_of header row ≡ cells header row
unfolding pairs_of cells columns_of strip
pairs_of-cells [] [] = refl
pairs_of-cells [] (value ∷ values) = refl
pairs_of-cells (name ∷ names) [] = refl
pairs_of-cells (name ∷ names) (value ∷ values) = elim (Bool-cases (nonempty (strip value))) [
  | inl filled ↦ rw (filled, pairs_of-cells names values) refl
  | inr blank ↦ rw (blank, pairs_of-cells names values) refl
]

-- The block says this of the row with the number, and nothing else.
pub record Says (number : ℕ) (parts : List Text) (b : TextBlock) : Type 0 where
  pub text : b.text ≡ join (codes " | ") parts
  pub row_number : b.metadata ≡ ("row_number", num number) ∷ []
  pub page : b.page_number ≡ none
  pub section : b.section_title ≡ none

row_block-Says :
    (number : ℕ) (header row : List Text)
    → Says number (cells header row) (row_block number (pairs_of header row))
unfolding row_block
row_block-Says number header row = record {
  text = ap (join (codes " | ")) (pairs_of-cells header row);
  row_number = refl;
  page = refl;
  section = refl;
}

-- A block of one of the rows below the header, the header being row 1.
abbrev pub RowOf : List Text → List (List Text) → TextBlock → Type 0
RowOf header rows b =
    (before : List (List Text)) × (row : List Text) × (after : List (List Text)) × (rows
      ≡ before ++ row ∷ after)
    × (cells header row ≢ [])
    × Says (length before + 2) (cells header row) b

module _ (header : List Text) (rows : List (List Text)) where
  add_row-RowOf :
      (number : ℕ) (pairs : List Text) (blocks : List TextBlock)
      → (pairs ≢ [] → RowOf header rows (row_block number pairs))
      → All (RowOf header rows) blocks
      → All (RowOf header rows) (add_row number pairs blocks)
  unfolding add_row
  add_row-RowOf number [] blocks h hs = hs
  add_row-RowOf number (p ∷ ps) blocks h hs = (h (λ e. cc), hs)

  row_blocks-RowOf :
      (number : ℕ) (seen now rest : List (List Text))
      → rows ≡ seen ++ (now ++ rest)
      → number ≡ length seen + 2
      → All (RowOf header rows) (row_blocks header number now)
  unfolding row_blocks
  row_blocks-RowOf number seen [] rest whole n = tt
  row_blocks-RowOf number seen (row ∷ now) rest whole n =
      add_row-RowOf number (pairs_of header row) (row_blocks header (suc number) now)
        (λ filled. (
          seen,
          row,
          now ++ rest,
          whole,
          (λ e. filled (pairs_of-cells header row ∙ e)),
          subst (λ k. Says k (cells header row) (row_block number (pairs_of header row))) n
              (row_block-Says number header row),
        ))
        (row_blocks-RowOf (suc number) (seen ++ row ∷ []) now rest
          (whole ∙ sym (append_assoc seen (row ∷ []) (now ++ rest)))
          (omega (arith, length-append seen (row ∷ []))))

add_row-self :
    (number : ℕ) (pairs : List Text) (blocks : List TextBlock)
    → pairs ≢ []
    → Memᴰ (row_block number pairs) (add_row number pairs blocks)
unfolding add_row
add_row-self number [] blocks h = absurd (h refl)
add_row-self number (p ∷ ps) blocks h = Memᴰ.head refl

add_row-later :
    (number : ℕ) (pairs : List Text) (blocks : List TextBlock) (b : TextBlock)
    → Memᴰ b blocks
    → Memᴰ b (add_row number pairs blocks)
unfolding add_row
add_row-later number [] blocks b m = m
add_row-later number (p ∷ ps) blocks b m = Memᴰ.tail m

lt→ltb : (a b : ℕ) → a < b → ltb a b ≡ true
lt→ltb a b h = ground arith

row_blocks-mem :
    (header : List Text) (number : ℕ) (before : List (List Text)) (row : List Text)
    (after : List (List Text))
    → pairs_of header row ≢ []
    → Memᴰ
        (row_block (length before + number) (pairs_of header row))
        (row_blocks header number (before ++ row ∷ after))
unfolding row_blocks
row_blocks-mem header number [] row after h =
    let e : 0 + number ≡ number = omega arith in
    rw e (add_row-self number (pairs_of header row) (row_blocks header (suc number) after) h)
row_blocks-mem header number (r ∷ before) row after h =
    add_row-later number (pairs_of header r)
      (row_blocks header (suc number) (before ++ row ∷ after)) _
      (subst
        (λ (k : ℕ).
          Memᴰ (row_block k (pairs_of header row))
            (row_blocks header (suc number) (before ++ row ∷ after)))
        (omega arith) (row_blocks-mem header (suc number) before row after h))

take-middle {ℓ} :
    {A : Type ℓ} (n : ℕ) (before : List A) (x : A) (after : List A)
    → length before < n
    → take n (before ++ x ∷ after) ≡ before ++ x ∷ take (n - length before - 1) after
take-middle zero before x after h = absurd (omega arith)
take-middle (suc n) [] x after h = let e : suc n - 0 - 1 ≡ n = omega arith in rw e refl
take-middle (suc n) (b ∷ before) x after h =
    let e : suc n - suc (length before) ≡ n - length before = omega arith in
    rw (e, take-middle n before x after (omega arith)) refl

parse_rows-mem :
    (columns : List Text) (rows before : List (List Text)) (row : List Text)
    (after : List (List Text))
    → rows ≡ before ++ row ∷ after
    → length before < max_rows
    → pairs_of (map strip columns) row ≢ []
    → Memᴰ
        (row_block (length before + 2) (pairs_of (map strip columns) row))
        (row_blocks (map strip columns) 2 (take max_rows rows))
parse_rows-mem columns rows before row after whole few filled =
    let header = map strip columns in
    subst (λ x. Memᴰ (row_block (length before + 2) (pairs_of header row)) (row_blocks header 2 x))
      (sym (ap (take max_rows) whole ∙ take-middle max_rows before row after few))
      (row_blocks-mem header 2 before row (take (max_rows - length before - 1) after) filled)

-- Each of the first `max_rows` rows with a value that is not blank has its block.
abbrev pub AllRows : List Text → List (List Text) → List TextBlock → Type 0
AllRows header rows blocks =
    (before : List (List Text)) (row : List Text) (after : List (List Text))
    → rows ≡ before ++ row ∷ after
    → length before < max_rows
    → cells header row ≢ []
    → (b : TextBlock) × Memᴰ b blocks × Says (length before + 2) (cells header row) b

-- A table is parsed into a block with the names of the columns, and blocks of rows below. Each of these is
-- of a row, has its number, and says of each column whose value is not blank its name and the value without
-- space at the ends, and nothing else; and each of the first `max_rows` rows with such a value has its
-- block. A warning is given exactly when there are more than `max_rows` rows.
pub parse_rows-RowOf :
    (columns : List Text) (rows : List (List Text))
    → (blocks : List TextBlock) × ((parse_rows (columns ∷ rows)).blocks
        ≡ section_block (some (codes "Columns")) none (join (codes " | ") (map strip columns))
          ∷ blocks)
      × All (RowOf (map strip columns) rows) blocks
      × AllRows (map strip columns) rows blocks
      × ((max_rows < length rows) ↔ ((parse_rows (columns ∷ rows)).warnings ≢ []))
unfolding parse_rows
parse_rows-RowOf columns rows =
    let header = map strip columns in
    (
      row_blocks header 2 (take max_rows rows),
      refl,
      row_blocks-RowOf header rows 2 [] (take max_rows rows) (drop max_rows rows)
          (sym (take-append-drop max_rows rows)) refl,
      (λ before row after whole few filled. (
        row_block (length before + 2) (pairs_of header row),
        parse_rows-mem columns rows before row after whole few
            (λ e. filled (sym (pairs_of-cells header row) ∙ e)),
        row_block-Says (length before + 2) header row,
      )),
      (
        λ more. rw (lt→ltb max_rows (length rows) more) (λ e. cc),
        λ warned. elim (Bool-cases (ltb max_rows (length rows))) [
          | inl more ↦ ltb→lt max_rows (length rows) more
          | inr few ↦ absurd (warned (rw few refl))
        ],
      ),
    )
