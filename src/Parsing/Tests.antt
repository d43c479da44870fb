-- ===== src/Parsing/Tests.antt =====
-- Files parsed by the parsers of text, and instances of their theorems.
use secondbrain_ai.Prelude.{
  ℕ, zero, suc, ◌<◌, ◌≡◌, ◌≢◌, ◌↔◌, refl, Bool, true, false, not, ◌&&◌, ◌||◌, Option, none, some,
  List, [], ◌∷◌, ◌++◌, map, flatten, arith, All, keep_if, leb, ◌==◌, length, take,
}
use secondbrain_ai.Prelude.Text.{Text, codes, is_space, strip, join}
use secondbrain_ai.Chunking.Blocks.{TextBlock}
use secondbrain_ai.Retrieval.Terms.{Unicode}
use secondbrain_ai.Parsing.Paragraphs.{max_block_chars, split_paragraphs}
use secondbrain_ai.Parsing.Paragraphs.Content.{
  Citable, split_paragraphs-Citable, keep_if-split_paragraphs,
}
use secondbrain_ai.Parsing.Base.{text_of_block, section_block}
use secondbrain_ai.Parsing.Markdown.{markdown_blocks}
use secondbrain_ai.Parsing.Markdown.Content.{texts_of_blocks, markdown_blocks_content}
use secondbrain_ai.Parsing.Markdown.Anchors.{Anchored, markdown_blocks-Anchored}
use secondbrain_ai.Parsing.Code.{code_blocks, definition_of, total_chars}
use secondbrain_ai.Parsing.Code.Spans.{Spans}
use secondbrain_ai.Parsing.Code.Lines.{code_blocks-Spans}
use secondbrain_ai.Parsing.Code.Truncated.{code_blocks_cut}
use secondbrain_ai.Parsing.Delimited.{parse_rows, max_rows}
use secondbrain_ai.Parsing.Delimited.Rows.{RowOf, AllRows, parse_rows-RowOf}

abbrev feed : Text
feed = 10 ∷ []

-- ASCII.
abbrev ascii : Unicode
ascii = record {
  lower = λ t. t;
  is_word =
      λ c. (leb 48 c && leb c 57) || (leb 65 c && leb c 90) || (leb 97 c && leb c 122) || c == 95;
}

abbrev notes : Text
notes =
    codes "intro"
    ++ (feed ++ (codes "## Set up ##" ++ (feed ++ (feed ++ (codes "run it" ++ feed)))))

abbrev printed : ℕ → Bool
printed c = not (is_space c || c == 35)

printed_space : (c : ℕ) → is_space c ≡ true → printed c ≡ false
printed_space c h = ground arith

printed_hash : printed 35 ≡ false
unfolding is_space
printed_hash = refl

paragraphs_test :
    split_paragraphs (codes "a b" ++ (feed ++ (codes "  " ++ (feed ++ codes " c"))))
    ≡ codes "a b" ∷ codes "c" ∷ []
unfolding split_paragraphs flatten
paragraphs_test = refl

markdown_test :
    map {B = Text × Option Text × Option ℕ}
      (λ b. (b.text, b.section_title, b.heading_level))
      (markdown_blocks notes)
    ≡ (codes "intro", none, none)
      ∷ (codes "Set up", some (codes "Set up"), some 2)
      ∷ (codes "run it", some (codes "Set up"), some 2)
      ∷ []
unfolding markdown_blocks flatten
markdown_test = refl

abbrev program : List Text
program =
    codes "import os" ∷ codes "def main():" ∷ codes "    run()" ∷ [] ∷ codes "class Tool:" ∷ []

code_test :
    map {B = Text × Option Text} (λ b. (b.text, b.section_title)) (code_blocks ascii program)
    ≡ (codes "import os", none)
      ∷ (codes "def main():" ++ (feed ++ codes "    run()"), some (codes "main"))
      ∷ (codes "class Tool:", some (codes "Tool"))
      ∷ []
unfolding code_blocks
code_test = refl

table_test :
    map text_of_block
      (parse_rows (
        (codes "Date" ∷ codes " City" ∷ [])
        ∷ (codes "1" ∷ codes " " ∷ [])
        ∷ (codes "" ∷ [])
        ∷ [])).blocks
    ≡ codes "Date | City" ∷ codes "Date: 1" ∷ []
unfolding parse_rows
table_test = refl

keep_if-split_paragraphs_example :
    keep_if printed (flatten (split_paragraphs notes)) ≡ keep_if printed notes
keep_if-split_paragraphs_example = keep_if-split_paragraphs printed printed_space notes

split_paragraphs-Citable_example : All (Citable max_block_chars) (split_paragraphs notes)
split_paragraphs-Citable_example = split_paragraphs-Citable notes

markdown_blocks_content_example :
    keep_if printed (texts_of_blocks (markdown_blocks notes)) ≡ keep_if printed notes
markdown_blocks_content_example = markdown_blocks_content printed printed_space printed_hash notes

markdown_blocks-Anchored_example : Anchored (none, none) (markdown_blocks notes)
markdown_blocks-Anchored_example = markdown_blocks-Anchored notes

code_blocks-Spans_example : Spans ascii program 0 (code_blocks ascii program) 5
code_blocks-Spans_example = code_blocks-Spans ascii program

-- A line of so many characters.
bar : ℕ → Text
bar zero = []
bar (suc n) = b'x' ∷ bar n

code_blocks_cut_example :
    map text_of_block (code_blocks ascii (bar 3990 ∷ bar 30 ∷ []))
    ≡ take max_block_chars (strip (join (10 ∷ []) (bar 3990 ∷ bar 30 ∷ []))) ∷ []
unfolding bar definition_of total_chars max_block_chars strip join
code_blocks_cut_example =
    code_blocks_cut ascii (bar 3990 ∷ []) (bar 30) (refl, tt) refl (omega arith) (omega arith)
      (omega arith)

abbrev prices : List (List Text)
prices = (codes "tea" ∷ codes "2" ∷ []) ∷ (codes "jam" ∷ codes "" ∷ []) ∷ []

abbrev columns : List Text
columns = codes "Item" ∷ codes "Price " ∷ []

parse_rows-RowOf_example :
    (blocks : List TextBlock) × ((parse_rows (columns ∷ prices)).blocks
      ≡ section_block (some (codes "Columns")) none (join (codes " | ") (map strip columns))
        ∷ blocks)
    × All (RowOf (map strip columns) prices) blocks
    × AllRows (map strip columns) prices blocks
    × ((max_rows < length prices) ↔ ((parse_rows (columns ∷ prices)).warnings ≢ []))
parse_rows-RowOf_example = parse_rows-RowOf columns prices
