-- ===== src/Parsing/Delimited.antt =====
-- `DelimitedTextParser` of backend/app/services/parsing/text.py.
pub mod Rows
use secondbrain_ai.Prelude.{
  ℕ, zero, suc, ◌+◌, ◌-◌, ◌<◌, ◌≤◌, ◌≡◌, refl, ap, ◌∙◌, inl, inr, Bool, true, false, Option, none,
  some, List, [], ◌∷◌, ◌++◌, map, take, drop, length, ltb, ◌==◌, if◌then◌else◌, arith, Bool-cases,
  All, All-append, length-take,
}
use secondbrain_ai.Prelude.Text.{Text, codes, strip, nonempty, join, text_eq}
use secondbrain_ai.Prelude.Outcome.{Outcome, ok, raised}
use secondbrain_ai.Chunking.Blocks.{TextBlock, Metadata, num, texts}
use secondbrain_ai.Parsing.Base.{ParsedDocument, parsed_document, section_block}

-- `csv` of the standard library: the delimiter that `Sniffer().sniff` finds in a sample, and the rows
-- that `reader` reads; `none` is `csv.Error`.
pub record Csv : Type 0 where
  pub sniff : Text → Option ℕ
  pub reader : ℕ → Text → Option (List (List Text))

-- `DelimitedTextParser.MAX_ROWS`
unfoldable pub max_rows : ℕ
max_rows = 5000

abbrev pub or_comma : Option ℕ → ℕ
or_comma none = 44
or_comma (some c) = c

-- `_sniff`
unfoldable pub sniff_delimiter : Csv → Text → ℕ
sniff_delimiter csv t = or_comma (csv.sniff (take 8192 t))

unfoldable pub delimiter_of : Csv → Text → Text → ℕ
unfolding sniff_delimiter text_eq
delimiter_of csv extension t = if text_eq extension (codes "tsv") then 9 else sniff_delimiter csv t

-- The named values of a row; a row longer than the header loses what is behind it.
unfoldable pub pairs_of : List Text → List Text → List Text
unfolding strip
pairs_of [] values = []
pairs_of (name ∷ names) [] = []
pairs_of (name ∷ names) (value ∷ values) =
    let rest = pairs_of names values in
    if nonempty (strip value) then (name ++ (codes ": " ++ strip value)) ∷ rest else rest

abbrev pub row_block : ℕ → List Text → TextBlock
row_block number pairs = record {
  text = join (codes " | ") pairs;
  page_number = none;
  section_title = none;
  heading_level = none;
  metadata = ("row_number", num number) ∷ [];
}

-- The block of a row, unless all its values are blank, before the other blocks.
unfoldable pub add_row : ℕ → List Text → List TextBlock → List TextBlock
unfolding join
add_row number [] blocks = blocks
add_row number (p ∷ ps) blocks = row_block number (p ∷ ps) ∷ blocks

-- The loop over the rows, numbered from this one.
unfoldable pub row_blocks : List Text → ℕ → List (List Text) → List TextBlock
unfolding add_row pairs_of
row_blocks header number [] = []
row_blocks header number (row ∷ rows) =
    add_row number (pairs_of header row) (row_blocks header (suc number) rows)

abbrev pub truncation_warning : List Text
truncation_warning = codes "Only the first 5000 rows were indexed." ∷ []

unfoldable pub parse_rows : List (List Text) → ParsedDocument
unfolding row_blocks max_rows strip join
parse_rows [] = parsed_document [] [] []
parse_rows (columns ∷ rows) =
    let header = map strip columns in
    parsed_document
      (section_block (some (codes "Columns")) none (join (codes " | ") header)
        ∷ row_blocks header 2 (take max_rows rows))
      (("row_count", num (length rows)) ∷ ("columns", texts header) ∷ [])
      (if ltb max_rows (length rows) then truncation_warning else [])

unfoldable pub parse_table : Text → Option (List (List Text)) → Outcome Text ParsedDocument
unfolding parse_rows
parse_table filename none = raised (filename ++ codes " is not readable CSV.")
parse_table filename (some rows) = ok (parse_rows rows)

-- `DelimitedTextParser.parse` of the text that was read.
unfoldable pub parse_delimited : Csv → Text → Text → Text → Outcome Text ParsedDocument
unfolding parse_table delimiter_of strip
parse_delimited csv filename extension t =
    if nonempty (strip t)
    then parse_table filename (csv.reader (delimiter_of csv extension t) t)
    else ok (parsed_document [] [] [])
