-- ===== src/Parsing/Pipeline/Tests.antt =====
-- The background job on a small file, and instances of its theorems.
use secondbrain_ai.Prelude.{
  ◌+◌, ◌≡◌, refl, sym, subst, ◌∙◌, flatten, true, none, some, List, [], ◌∷◌, map,
}
use secondbrain_ai.Prelude.Text.{codes}
use secondbrain_ai.Prelude.Outcome.{ok, raised}
use secondbrain_ai.Chunking.Blocks.{Chunk}
use secondbrain_ai.Chunking.Splitter.{split}
use secondbrain_ai.Documents.{Document, pending, get_for_owner}
use secondbrain_ai.Indexing
use secondbrain_ai.Indexing.{World, cleaned}
use secondbrain_ai.Parsing.Base.{ParsedDocument, parse_plain}
use secondbrain_ai.Parsing.Registry.{
  Readers, parse_file, all_parsers, parser_claims, document_parse_error,
}
use secondbrain_ai.Parsing.Pipeline.{
  Archive, ParsingServices, extract, parse_document, parse_then_index,
}
use secondbrain_ai.Parsing.Pipeline.Outcomes.{Parsed, parse_document-Parsed}
use secondbrain_ai.Parsing.Pipeline.Job.{Finished, parse_then_index-Finished}
use mathlib.Core.List.{reverse}

-- Bytes are characters here, and the libraries read nothing.
abbrev readers : Readers
readers = record {
  read_text = λ bytes. bytes;
  unicode = record { lower = λ t. t; is_word = λ c. true };
  csv = record { sniff = λ t. none; reader = λ c t. none };
  by_library = λ name context. raised (document_parse_error name);
}

abbrev note : Document
note = record {
  id = 1;
  owner_id = 7;
  collection_id = none;
  title = codes "note";
  original_filename = codes "note.txt";
  mime_type = codes "text/plain";
  extension = codes "txt";
  size_bytes = 3;
  content_hash = 5;
  storage_key = codes "7/note";
  status = pending;
  error_message = none;
  page_count = none;
  word_count = none;
  blocks_key = none;
  chunk_count = 0;
}

abbrev parsing_services : (World → World) → ParsingServices
parsing_services meanwhile = record {
  read_object = λ key. ok (codes "one two");
  lower = λ t. t;
  table = reverse (parser_claims (all_parsers readers));
  put_raises = λ key. none;
  removable = λ key. true;
  meanwhile = meanwhile;
}

abbrev quiet : ParsingServices
quiet = parsing_services (λ w. w)

abbrev archive : Archive
archive = record {
  world = record { documents = note ∷ []; chunks = []; vectors = [] };
  derived = [];
}

found : get_for_owner 1 7 archive.world.documents ≡ some note
unfolding get_for_owner
found = refl

parse_document-Parsed_example : Parsed quiet 1 7 note [] (parse_document quiet 1 7 archive)
parse_document-Parsed_example = parse_document-Parsed quiet 1 7 archive note found (λ w. refl) refl

-- The document is deleted while it is parsed.
abbrev deleting : ParsingServices
deleting = parsing_services (λ w. record w { documents = [] })

abbrev one_two : ParsedDocument
one_two = record {
  blocks =
      record {
        text = codes "one two";
        page_number = none;
        section_title = none;
        heading_level = none;
        metadata = [];
      }
      ∷ [];
  page_count = none;
  metadata = [];
  warnings = [];
}

extracted : (meanwhile : World → World) → extract (parsing_services meanwhile) note ≡ ok one_two
unfolding extract parse_file all_parsers parser_claims parse_plain flatten
extracted meanwhile = refl

abbrev indexing_services : Indexing.Services
indexing_services = record {
  load_blocks = λ d. none;
  embed_documents = λ texts. ok (map (λ t. 1 ∷ []) texts);
  delete_raises = λ id. none;
  upsert_raises = λ records. none;
  new_id = λ n. 100 + n;
  model_name = codes "small";
  chunker = record { chunk_size = 8; overlap = 2; min_chars = 1 };
  depth = 900;
  batch_size = 1;
}

one_two_splits :
    (chunks : List Chunk) × (split 900 indexing_services.chunker (cleaned one_two.blocks)
      ≡ some chunks)
unfolding split cleaned
one_two_splits = (_, refl)

-- The chunker returns on what this file is parsed into.
chunks_of :
    (q : ParsedDocument)
    → extract quiet note ≡ ok q
    → (chunks : List Chunk) × (split 900 indexing_services.chunker (cleaned q.blocks) ≡ some chunks)
chunks_of q h =
    let read : ok one_two ≡ ok q = sym (extracted (λ w. w)) ∙ h in
    let same : one_two ≡ q = cc in
    subst
      (λ (x : ParsedDocument).
        (chunks : List Chunk) × (split 900 indexing_services.chunker (cleaned x.blocks)
          ≡ some chunks))
      same one_two_splits

parse_then_index-Finished_example :
    Finished 1 7 (parse_then_index quiet indexing_services 1 7 archive)
parse_then_index-Finished_example =
    parse_then_index-Finished quiet indexing_services 1 7 archive note found (λ w. refl) refl
      chunks_of
