-- ===== src/Parsing/Base.antt =====
-- backend/app/services/parsing/base.py: `ParsedDocument`, and the parser of plain text.
use secondbrain_ai.Prelude.{ℕ, ◌+◌, Option, none, List, [], ◌∷◌, map, length}
use secondbrain_ai.Prelude.Text.{Text}
use secondbrain_ai.Chunking.Blocks.{TextBlock, Metadata}
use secondbrain_ai.Chat.Titles.{words_from}
use secondbrain_ai.Parsing.Paragraphs.{split_paragraphs}

-- `ParsedDocument`
pub record ParsedDocument : Type 0 where
  pub blocks : List TextBlock
  pub page_count : Option ℕ
  pub metadata : Metadata
  pub warnings : List Text

-- `ParsedDocument(blocks=blocks)`
abbrev pub parsed_document : List TextBlock → Metadata → List Text → ParsedDocument
parsed_document blocks metadata warnings = record {
  blocks = blocks;
  page_count = none;
  metadata = metadata;
  warnings = warnings;
}

-- A block with its section and the depth of its heading.
abbrev pub section_block : Option Text → Option ℕ → Text → TextBlock
section_block section level text = record {
  text = text;
  page_number = none;
  section_title = section;
  heading_level = level;
  metadata = [];
}

-- What the blocks say.
abbrev pub text_of_block : TextBlock → Text
text_of_block b = b.text

-- `TextBlock.word_count`
unfoldable pub block_words : TextBlock → ℕ
unfolding words_from
block_words b = length (words_from [] b.text)

-- `ParsedDocument.word_count`
unfoldable pub words_of_blocks : List TextBlock → ℕ
unfolding block_words
words_of_blocks [] = 0
words_of_blocks (b ∷ bs) = block_words b + words_of_blocks bs

-- `PlainTextParser.parse` of the text that was read.
unfoldable pub parse_plain : Text → ParsedDocument
unfolding split_paragraphs
parse_plain t = parsed_document (map (section_block none none) (split_paragraphs t)) [] []
