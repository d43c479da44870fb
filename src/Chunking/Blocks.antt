-- ===== src/Chunking/Blocks.antt =====
-- The data of the chunker: `TextBlock` of backend/app/services/parsing/base.py, and `Chunk` of
-- backend/app/services/chunking/__init__.py.
use Prim.Native.String.{String}
use secondbrain_ai.Prelude.{ℕ, ◌/◌, max, Option, List, Bool, length}
use secondbrain_ai.Prelude.Text.{Text}

-- What a parser stores under a metadata key. The chunker passes these values on unread.
pub data Value : Type 0 where
  null : Value
  flag : Bool → Value
  num : ℕ → Value
  str : Text → Value
  texts : List Text → Value

abbrev pub Metadata : Type 0
Metadata = List (String × Value)

pub record TextBlock : Type 0 where
  pub text : Text
  pub page_number : Option ℕ
  pub section_title : Option Text
  pub heading_level : Option ℕ
  pub metadata : Metadata

pub record Chunk : Type 0 where
  pub text : Text
  pub ordinal : ℕ
  pub page_number : Option ℕ
  pub section_title : Option Text
  pub char_start : Option ℕ
  pub char_end : Option ℕ
  pub metadata : Metadata

unfoldable pub approximate_tokens : Chunk → ℕ
approximate_tokens c = max 1 (length c.text / 4)

-- `_with_text`
unfoldable pub with_text : TextBlock → Text → TextBlock
with_text b t = record {
  text = t;
  page_number = b.page_number;
  section_title = b.section_title;
  heading_level = b.heading_level;
  metadata = b.metadata;
}
