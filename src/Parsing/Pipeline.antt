-- ===== src/Parsing/Pipeline.antt =====
-- `ParsingService` of backend/app/services/parsing/pipeline.py, and the job that
-- backend/app/api/v1/routes/documents.py makes of it and of indexing.
pub mod Outcomes
pub mod Job
mod Tests
use secondbrain_ai.Prelude.{
  ℕ, Bool, true, false, not, ◌&&◌, Option, none, some, List, [], ◌∷◌, ◌++◌, take, keep_if,
  if◌then◌else◌,
}
use secondbrain_ai.Prelude.Text.{Text, codes, text_eq}
use secondbrain_ai.Prelude.Outcome.{Outcome, ok, raised}
use secondbrain_ai.Chunking.Blocks.{TextBlock, Metadata}
use secondbrain_ai.Documents.{Document, DocumentStatus, parsing, parsed, failed, get_for_owner}
use secondbrain_ai.Indexing.{World, IndexingResult, save, if_found, index_document}
use secondbrain_ai.Indexing
use secondbrain_ai.Parsing.Base.{ParsedDocument, words_of_blocks}
use secondbrain_ai.Parsing.Payload.{Json, stored_payload, parsed_of}
use secondbrain_ai.Parsing.Registry.{
  ParseContext, ParseFailure, document_parse_error, unexpected, Claim, parse_file,
}

-- The object that holds what a parse produced.
pub record StoredBlocks : Type 0 where
  pub key : Text
  pub payload : Json

-- What is committed, and the derived objects.
pub record Archive : Type 0 where
  pub world : World
  pub derived : List StoredBlocks

-- The bytes of an object, or the exception of `open`; `str.lower` and the registry; the exception that
-- `put_derived` raises for a key, if it does; whether a derived object can be removed; and what other
-- requests commit while a file is parsed.
pub record ParsingServices : Type 0 where
  pub read_object : Text → Outcome ParseFailure (List ℕ)
  pub lower : Text → Text
  pub table : List Claim
  pub put_raises : Text → Option Text
  pub removable : Text → Bool
  pub meanwhile : World → World

-- `BLOCKS_SUFFIX`
abbrev pub blocks_suffix : Text
blocks_suffix = codes ".blocks.json"

abbrev pub blocks_key_of : Document → Text
blocks_key_of d = d.storage_key ++ blocks_suffix

abbrev pub without_key : Text → List StoredBlocks → List StoredBlocks
without_key key objects = keep_if (λ o. not (text_eq o.key key)) objects

-- The payload is written by `put_derived`, which replaces an object with its key.
unfoldable pub put_derived : Text → ParsedDocument → List StoredBlocks → List StoredBlocks
unfolding text_eq stored_payload
put_derived key p objects =
    record { key = key; payload = stored_payload p } ∷ without_key key objects

unfoldable pub object_at : Text → List StoredBlocks → Option StoredBlocks
unfolding text_eq
object_at key [] = none
object_at key (o ∷ os) = let rest = object_at key os in if text_eq o.key key then some o else rest

abbrev pub as_parsed : Document → Option StoredBlocks → Option ParsedDocument
unfolding parsed_of
as_parsed d none = none
as_parsed d (some o) = parsed_of d.page_count o.payload

abbrev pub load_at : Document → Option Text → List StoredBlocks → Option ParsedDocument
load_at d none objects = none
load_at d (some key) objects = as_parsed d (object_at key objects)

-- `load_blocks`
unfoldable pub load_parsed : List StoredBlocks → Document → Option ParsedDocument
unfolding object_at
load_parsed objects d = load_at d d.blocks_key objects

-- The file is read, and parsed by its extension.
unfoldable pub extract_from :
    ParsingServices → Document → Outcome ParseFailure (List ℕ) → Outcome ParseFailure ParsedDocument
unfolding parse_file
extract_from s d (raised e) = raised e
extract_from s d (ok bytes) = parse_file s.lower s.table (record {
  content = bytes;
  filename = d.original_filename;
  mime_type = d.mime_type;
  extension = d.extension;
})

-- `_extract`
unfoldable pub extract : ParsingServices → Document → Outcome ParseFailure ParsedDocument
unfolding extract_from
extract s d = extract_from s d (s.read_object d.storage_key)

unfoldable pub failure_message : ParseFailure → Text
failure_message (document_parse_error message) = message
failure_message (unexpected message) = codes "An unexpected error occurred: " ++ message

abbrev pub as_failed : Text → Document → Document
as_failed message d = record d { status = failed; error_message = some (take 1000 message) }

-- `_record_failure`
unfoldable pub record_parse_failure : ℕ → ℕ → Text → World → World
unfolding get_for_owner if_found
record_parse_failure id owner message w =
    if_found (as_failed message) (get_for_owner id owner w.documents) w

abbrev pub as_parsed_row : Text → ParsedDocument → Document → Document
as_parsed_row key p d = record d {
  status = parsed;
  page_count = p.page_count;
  word_count = some (words_of_blocks p.blocks);
  error_message = none;
  blocks_key = some key;
}

-- What follows the write of the blocks: a document that was deleted while it was parsed takes the
-- blocks with it.
unfoldable pub record_parsed :
    ParsingServices → Text → ParsedDocument → Option Document → Archive → Archive
unfolding save
record_parsed s key p none a =
    if s.removable key then record a { derived = without_key key a.derived } else a
record_parsed s key p (some d) a = record a { world = save (as_parsed_row key p d) a.world }

unfoldable pub after_put_derived :
    ParsingServices
    → ℕ
    → ℕ
    → Text
    → ParsedDocument
    → Option Text
    → Archive
    → Archive × Outcome Text (Unit {0})
unfolding put_derived record_parsed get_for_owner
after_put_derived s id owner key p (some message) a = (a, raised message)
after_put_derived s id owner key p none a =
    let stored = record a { derived = put_derived key p a.derived } in
    (record_parsed s key p (get_for_owner id owner a.world.documents) stored, ok tt)

-- What follows `_extract`: `_record_success`, which is called outside the `try`, or `_record_failure`.
unfoldable pub record_outcome :
    ParsingServices
    → ℕ
    → ℕ
    → Document
    → Outcome ParseFailure ParsedDocument
    → Archive
    → Archive × Outcome Text (Unit {0})
unfolding after_put_derived record_parse_failure failure_message
record_outcome s id owner d (raised e) a =
    (record a { world = record_parse_failure id owner (failure_message e) a.world }, ok tt)
record_outcome s id owner d (ok p) a =
    after_put_derived s id owner (blocks_key_of d) p (s.put_raises (blocks_key_of d)) a

abbrev pub started : Document → Document
started d = record d { status = parsing; error_message = none }

unfoldable pub parse_found :
    ParsingServices → ℕ → ℕ → Option Document → Archive → Archive × Outcome Text (Unit {0})
unfolding save extract record_outcome
parse_found s id owner none a = (a, ok tt)
parse_found s id owner (some d) a =
    record_outcome s id owner d (extract s d)
      (record a { world = s.meanwhile (save (started d) a.world) })

-- `parse_document`
unfoldable pub parse_document :
    ParsingServices → ℕ → ℕ → Archive → Archive × Outcome Text (Unit {0})
unfolding get_for_owner parse_found
parse_document s id owner a = parse_found s id owner (get_for_owner id owner a.world.documents) a

abbrev pub blocks_of : Option ParsedDocument → Option (List TextBlock)
blocks_of none = none
blocks_of (some p) = some p.blocks

-- Indexing reads what parsing wrote.
abbrev pub reading : List StoredBlocks → Indexing.Services → Indexing.Services
reading objects s = record s { load_blocks = λ d. blocks_of (load_parsed objects d) }

abbrev pub indexed_archive :
    Archive → World × Outcome Text IndexingResult → Archive × Outcome Text (Unit {0})
indexed_archive a (w, ok r) = (record a { world = w }, ok tt)
indexed_archive a (w, raised message) = (record a { world = w }, raised message)

unfoldable pub then_index :
    Indexing.Services
    → ℕ
    → ℕ
    → Archive × Outcome Text (Unit {0})
    → Archive × Outcome Text (Unit {0})
unfolding index_document
then_index s id owner (a, raised message) = (a, raised message)
then_index s id owner (a, ok u) =
    indexed_archive a (index_document (reading a.derived s) id owner a.world)

-- `_parse_then_index`
unfoldable pub parse_then_index :
    ParsingServices → Indexing.Services → ℕ → ℕ → Archive → Archive × Outcome Text (Unit {0})
unfolding parse_document then_index
parse_then_index p s id owner a = then_index s id owner (parse_document p id owner a)
