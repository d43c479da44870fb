-- ===== src/Parsing/Payload.antt =====
-- The JSON object that `_record_success` of backend/app/services/parsing/pipeline.py writes of a parse, and
-- that `load_blocks` makes blocks of. The bytes are those that `json.dumps` gives for it, and `json.loads`
-- gives it back from them.
pub mod Reads
use Prim.Native.String.{String}
use text.Mathlib.Text.{◌==◌ as str_eq}
use secondbrain_ai.Prelude.{
  ℕ, Bool, true, false, ◌&&◌, ◌||◌, Option, none, some, List, [], ◌∷◌, if◌then◌else◌, chain,
}
use secondbrain_ai.Prelude.Text.{Text}
use secondbrain_ai.Chunking.Blocks.{TextBlock, Metadata, Value, null, flag, num, str, texts}
use secondbrain_ai.Parsing.Base.{ParsedDocument}

mutual
  pub data Json : Type 0 where
    json_null : Json
    json_flag : Bool → Json
    json_num : ℕ → Json
    json_str : Text → Json
    json_list : Items → Json
    json_object : Fields → Json

  pub data Items : Type 0 where
    no_items : Items
    item : Json → Items → Items

  pub data Fields : Type 0 where
    no_fields : Fields
    field : String → Json → Fields → Fields

-- What `asdict` makes of the values of a block.
unfoldable pub json_texts : List Text → Items
json_texts [] = no_items
json_texts (t ∷ ts) = item (json_str t) (json_texts ts)

unfoldable pub json_value : Value → Json
unfolding json_texts
json_value null = json_null
json_value (flag b) = json_flag b
json_value (num n) = json_num n
json_value (str t) = json_str t
json_value (texts ts) = json_list (json_texts ts)

unfoldable pub json_metadata : Metadata → Fields
unfolding json_value
json_metadata [] = no_fields
json_metadata ((key, v) ∷ m) = field key (json_value v) (json_metadata m)

abbrev pub json_number : Option ℕ → Json
json_number none = json_null
json_number (some n) = json_num n

abbrev pub json_text : Option Text → Json
json_text none = json_null
json_text (some t) = json_str t

-- `asdict(block)`
unfoldable pub as_dict : TextBlock → Json
unfolding json_metadata
as_dict b = json_object (
    field "text" (json_str b.text) (
      field "page_number" (json_number b.page_number) (
        field "section_title" (json_text b.section_title) (
          field "heading_level" (json_number b.heading_level)
            (field "metadata" (json_object (json_metadata b.metadata)) no_fields)))))

unfoldable pub json_blocks : List TextBlock → Items
unfolding as_dict
json_blocks [] = no_items
json_blocks (b ∷ bs) = item (as_dict b) (json_blocks bs)

-- The object that is written of a parse.
unfoldable pub stored_payload : ParsedDocument → Json
unfolding json_blocks json_metadata json_texts
stored_payload p = json_object (
    field "blocks" (json_list (json_blocks p.blocks)) (
      field "metadata" (json_object (json_metadata p.metadata))
        (field "warnings" (json_list (json_texts p.warnings)) no_fields)))

-- `payload[key]`, and `payload.get(key, default)`.
unfoldable pub at_key : String → Fields → Option Json
at_key key no_fields = none
at_key key (field name j fs) = let rest = at_key key fs in if str_eq name key then some j else rest

-- The values as the model has them: none where an object has another shape, which no parse writes.
unfoldable pub read_texts : Items → Option (List Text)
read_texts no_items = some []
read_texts (item (json_str t) js) = chain (read_texts js) (λ ts. some (t ∷ ts))
read_texts (item j js) = none

unfoldable pub read_value : Json → Option Value
unfolding read_texts
read_value json_null = some null
read_value (json_flag b) = some (flag b)
read_value (json_num n) = some (num n)
read_value (json_str t) = some (str t)
read_value (json_list js) = chain (read_texts js) (λ ts. some (texts ts))
read_value (json_object fs) = none

unfoldable pub read_fields : Fields → Option Metadata
unfolding read_value
read_fields no_fields = some []
read_fields (field key j fs) =
    chain (read_value j) (λ v. chain (read_fields fs) (λ m. some ((key, v) ∷ m)))

unfoldable pub read_metadata : Option Json → Option Metadata
unfolding read_fields
read_metadata none = some []
read_metadata (some (json_object fs)) = read_fields fs
read_metadata (some j) = none

unfoldable pub read_warnings : Option Json → Option (List Text)
unfolding read_texts
read_warnings none = some []
read_warnings (some (json_list js)) = read_texts js
read_warnings (some j) = none

unfoldable pub read_number : Option Json → Option (Option ℕ)
read_number none = some none
read_number (some json_null) = some none
read_number (some (json_num n)) = some (some n)
read_number (some j) = none

unfoldable pub read_title : Option Json → Option (Option Text)
read_title none = some none
read_title (some json_null) = some none
read_title (some (json_str t)) = some (some t)
read_title (some j) = none

unfoldable pub read_string : Option Json → Option Text
read_string (some (json_str t)) = some t
read_string j = none

-- The arguments that `TextBlock` takes.
unfoldable pub is_argument : String → Bool
is_argument key =
    str_eq key "text"
    || str_eq key "page_number"
    || str_eq key "section_title"
    || str_eq key "heading_level"
    || str_eq key "metadata"

unfoldable pub are_arguments : Fields → Bool
unfolding is_argument
are_arguments no_fields = true
are_arguments (field key j fs) = is_argument key && are_arguments fs

abbrev pub block_of_fields : Fields → Option TextBlock
unfolding read_string read_number read_title read_metadata at_key
block_of_fields fs = chain (read_string (at_key "text" fs)) (λ t.
    chain (read_number (at_key "page_number" fs)) (λ page.
      chain (read_title (at_key "section_title" fs)) (λ section.
        chain (read_number (at_key "heading_level" fs)) (λ level.
          chain (read_metadata (at_key "metadata" fs)) (λ m. some (record {
            text = t;
            page_number = page;
            section_title = section;
            heading_level = level;
            metadata = m;
          }))))))

-- `TextBlock(**block)`, which an argument that it does not take makes raise.
unfoldable pub block_of_dict : Json → Option TextBlock
unfolding are_arguments block_of_fields
block_of_dict (json_object fs) = if are_arguments fs then block_of_fields fs else none
block_of_dict j = none

unfoldable pub read_blocks : Items → Option (List TextBlock)
unfolding block_of_dict
read_blocks no_items = some []
read_blocks (item j js) =
    chain (block_of_dict j) (λ b. chain (read_blocks js) (λ bs. some (b ∷ bs)))

unfoldable pub listed_blocks : Option Json → Option (List TextBlock)
unfolding read_blocks
listed_blocks (some (json_list js)) = read_blocks js
listed_blocks j = none

-- The `ParsedDocument` of `load_blocks`, with the page count of the row.
unfoldable pub parsed_of : Option ℕ → Json → Option ParsedDocument
unfolding listed_blocks at_key read_metadata read_warnings
parsed_of page_count (json_object fs) = chain (listed_blocks (at_key "blocks" fs)) (λ blocks.
    chain (read_metadata (at_key "metadata" fs)) (λ m.
      chain (read_warnings (at_key "warnings" fs)) (λ warnings.
        some (record {
          blocks = blocks;
          page_count = page_count;
          metadata = m;
          warnings = warnings;
        }))))
parsed_of page_count j = none
