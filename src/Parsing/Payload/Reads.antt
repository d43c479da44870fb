-- ===== src/Parsing/Payload/Reads.antt =====
-- What is written of a parse is read back.
use secondbrain_ai.Prelude.{ℕ, ◌≡◌, refl, Option, none, some, List, [], ◌∷◌}
use secondbrain_ai.Prelude.Text.{Text}
use secondbrain_ai.Chunking.Blocks.{TextBlock, Metadata, Value, null, flag, num, str, texts}
use secondbrain_ai.Parsing.Base.{ParsedDocument}
use secondbrain_ai.Parsing.Payload.{
  json_texts, json_value, json_metadata, json_number, json_text, as_dict, json_blocks,
  stored_payload, at_key, read_texts, read_value, read_fields, read_metadata, read_warnings,
  read_number, read_title, read_string, is_argument, are_arguments, block_of_fields, block_of_dict,
  read_blocks, listed_blocks, parsed_of,
}

read-json_texts : (ts : List Text) → read_texts (json_texts ts) ≡ some ts
unfolding read_texts json_texts
read-json_texts [] = refl
read-json_texts (t ∷ ts) = rw (read-json_texts ts) refl

read-json_value : (v : Value) → read_value (json_value v) ≡ some v
unfolding read_value json_value
read-json_value null = refl
read-json_value (flag b) = refl
read-json_value (num n) = refl
read-json_value (str t) = refl
read-json_value (texts ts) = rw (read-json_texts ts) refl

read-json_metadata : (m : Metadata) → read_fields (json_metadata m) ≡ some m
unfolding read_fields json_metadata
read-json_metadata [] = refl
read-json_metadata ((key, v) ∷ m) = rw (read-json_value v, read-json_metadata m) refl

read-json_number : (n : Option ℕ) → read_number (some (json_number n)) ≡ some n
unfolding read_number
read-json_number none = refl
read-json_number (some n) = refl

read-json_text : (t : Option Text) → read_title (some (json_text t)) ≡ some t
unfolding read_title
read-json_text none = refl
read-json_text (some t) = refl

block-as_dict : (b : TextBlock) → block_of_dict (as_dict b) ≡ some b
unfolding block_of_dict as_dict are_arguments is_argument block_of_fields at_key read_string
    read_metadata
block-as_dict b =
    rw
      (
        read-json_number b.page_number,
        read-json_text b.section_title,
        read-json_number b.heading_level,
        read-json_metadata b.metadata,
      )
      refl

read-json_blocks : (bs : List TextBlock) → read_blocks (json_blocks bs) ≡ some bs
unfolding read_blocks json_blocks
read-json_blocks [] = refl
read-json_blocks (b ∷ bs) = rw (block-as_dict b, read-json_blocks bs) refl

-- The object of a parse is read as that parse, with the page count that is given.
pub parsed-stored_payload :
    (page_count : Option ℕ) (p : ParsedDocument)
    → parsed_of page_count (stored_payload p) ≡ some (record p { page_count = page_count })
unfolding parsed_of stored_payload at_key listed_blocks read_metadata read_warnings
parsed-stored_payload page_count p =
    rw (read-json_blocks p.blocks, read-json_metadata p.metadata, read-json_texts p.warnings) refl
