-- ===== src/Parsing/Code.antt =====
-- `CodeParser` of backend/app/services/parsing/text.py.
pub mod Spans
pub mod Lines
pub mod Truncated
use Prim.Native.String.{String}
use secondbrain_ai.Prelude.{
  ℕ, zero, suc, ◌+◌, ◌-◌, Bool, true, false, not, ◌&&◌, ◌||◌, Option, none, some, List, [], ◌∷◌,
  ◌++◌, map, take, drop, length, chain, or_else, ltb, ◌==◌, if◌then◌else◌,
}
use secondbrain_ai.Prelude.Text.{
  Text, codes, is_space, lstrip, strip, nonempty, after_prefix, join, splitlines,
}
use secondbrain_ai.Chunking.Blocks.{TextBlock, Metadata, num, str}
use secondbrain_ai.Retrieval.Terms.{Unicode}
use secondbrain_ai.Parsing.Paragraphs.{max_block_chars}
use secondbrain_ai.Parsing.Base.{ParsedDocument, parsed_document}

-- The text after space, of which there must be some.
unfoldable pub after_space : Text → Option Text
unfolding is_space lstrip
after_space [] = none
after_space (c ∷ t) = if is_space c then some (lstrip t) else none

-- The longest front of `\w`.
unfoldable pub word_front : Unicode → Text → Text
word_front u [] = []
word_front u (c ∷ t) = let rest = word_front u t in if u.is_word c then c ∷ rest else []

abbrev pub some_word : Text → Option Text
some_word [] = none
some_word (c ∷ w) = some (c ∷ w)

-- `\s+?(\w+)`
unfoldable pub defined_name : Unicode → Option Text → Option Text
unfolding word_front
defined_name u none = none
defined_name u (some t) = some_word (word_front u t)

-- A modifier and the space after it.
unfoldable pub after_word : Text → Text → Option Text
unfolding after_prefix after_space
after_word w t = chain (after_prefix w t) after_space

-- The first of the words that stands at the front.
unfoldable pub after_any : List String → Text → Option Text
unfolding after_word
after_any [] t = none
after_any (w ∷ ws) t = or_else (after_word (codes w) t) (after_any ws t)

abbrev pub modifiers : List String
modifiers = "export" ∷ "public" ∷ "private" ∷ "protected" ∷ "static" ∷ "async" ∷ []

-- `(?:export\s+|…)*`, on fuel: each round takes a character.
unfoldable pub skip_modifiers : ℕ → Text → Text
unfolding after_any
skip_modifiers zero t = t
skip_modifiers (suc fuel) t = elim (after_any modifiers t) [
  | none ↦ t
  | some rest ↦ skip_modifiers fuel rest
]

-- `const\s+\w+\s*=\s*\(`
unfoldable pub after_const : Unicode → Text → Option Text
unfolding after_word word_front after_prefix lstrip
after_const u t = chain (after_word (codes "const") t) (λ name.
    chain (some_word (word_front u name)) (λ w.
      chain (after_prefix (codes "=") (lstrip (drop (length w) name)))
        (λ value. after_prefix (codes "(") (lstrip value))))

abbrev pub keywords : List String
keywords =
    "def" ∷ "class" ∷ "func" ∷ "function" ∷ "fn" ∷ "interface" ∷ "struct" ∷ "impl" ∷ "type" ∷ []

-- `_DEFINITION.match(line)`: the name that the line defines.
unfoldable pub definition_of : Unicode → Text → Option Text
unfolding skip_modifiers after_any defined_name after_const after_space lstrip
definition_of u line =
    let t = skip_modifiers (length line) (lstrip line) in
    or_else (defined_name u (after_any keywords t))
      (defined_name u (chain (after_const u t) after_space))

-- The variables of `CodeParser.parse`.
pub record CodeReader : Type 0 where
  pub blocks : List TextBlock
  pub definition : Option Text
  pub buffer : List Text
  pub start_line : ℕ

abbrev pub line_range : ℕ → ℕ → Metadata
line_range from to = ("start_line", num from) ∷ ("end_line", num to) ∷ []

-- The block of a body; a blank one makes none.
unfoldable pub add_code : ℕ → Text → CodeReader → CodeReader
unfolding max_block_chars
add_code end_line [] r = record r { buffer = [] }
add_code end_line (c ∷ body) r = record r {
  buffer = [];
  blocks =
      r.blocks
      ++ record {
        text = take max_block_chars (c ∷ body);
        page_number = none;
        section_title = r.definition;
        heading_level = none;
        metadata = line_range r.start_line end_line;
      }
        ∷ [];
}

-- `flush` of these lines, which wait.
unfoldable pub flush_code_lines : ℕ → List Text → CodeReader → CodeReader
unfolding add_code strip join
flush_code_lines end_line [] r = r
flush_code_lines end_line (l ∷ ls) r = add_code end_line (strip (join (10 ∷ []) (l ∷ ls))) r

unfoldable pub flush_code : ℕ → CodeReader → CodeReader
unfolding flush_code_lines
flush_code end_line r = flush_code_lines end_line r.buffer r

-- `sum(len(item) for item in buffer)`
unfoldable pub total_chars : List Text → ℕ
total_chars [] = 0
total_chars (l ∷ ls) = length l + total_chars ls

-- A line that defines a name starts a block.
unfoldable pub start_definition : ℕ → Option Text → CodeReader → CodeReader
unfolding flush_code
start_definition number none r = r
start_definition number (some name) r = record (flush_code (number - 1) r) {
  start_line = number;
  definition = some name;
}

abbrev pub push_line : Text → CodeReader → CodeReader
push_line line r = record r { buffer = r.buffer ++ line ∷ [] }

-- A block that has grown past the limit is closed.
unfoldable pub close_long : ℕ → CodeReader → CodeReader
unfolding total_chars max_block_chars flush_code
close_long number r =
    if ltb max_block_chars (total_chars r.buffer)
    then record (flush_code number r) { start_line = number + 1 }
    else r

-- One round of the loop over the lines.
unfoldable pub read_code_line : Unicode → ℕ → Text → CodeReader → CodeReader
unfolding definition_of start_definition close_long
read_code_line u number line r =
    close_long number (push_line line (start_definition number (definition_of u line) r))

unfoldable pub read_code_lines : Unicode → ℕ → List Text → CodeReader → CodeReader
unfolding read_code_line
read_code_lines u number [] r = r
read_code_lines u number (l ∷ ls) r =
    read_code_lines u (suc number) ls (read_code_line u number l r)

abbrev pub new_code_reader : CodeReader
new_code_reader = record { blocks = []; definition = none; buffer = []; start_line = 1 }

unfoldable pub code_blocks : Unicode → List Text → List TextBlock
unfolding read_code_lines flush_code
code_blocks u lines = (flush_code (length lines) (read_code_lines u 1 lines new_code_reader)).blocks

-- `CodeParser.parse` of the text that was read, of a file with this extension.
unfoldable pub parse_code : Unicode → Text → Text → ParsedDocument
unfolding code_blocks splitlines
parse_code u extension t =
    let lines = splitlines t in
    parsed_document (code_blocks u lines)
      (("language", str extension) ∷ ("line_count", num (length lines)) ∷ []) []
