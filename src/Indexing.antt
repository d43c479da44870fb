-- ===== src/Indexing.antt =====
-- backend/app/services/indexing.py: from parsed blocks to passages and vectors.
pub mod Holds
pub mod Vectors
pub mod Records
pub mod Store
pub mod Settled
pub mod Failures
mod Tests
use secondbrain_ai.Prelude.{
  ℕ, ◌+◌, zero, suc, Bool, true, false, not, ◌&&◌, ◌||◌, Option, none, some, List, [], ◌∷◌, ◌++◌,
  map, take, drop, length, keep_if, any, all, ltb, ◌==◌, if◌then◌else◌,
}
use secondbrain_ai.Prelude.Text.{Text, codes, nonempty, strip}
use secondbrain_ai.Prelude.Outcome.{Outcome, ok, raised}
use secondbrain_ai.Chunking.Blocks.{TextBlock, Chunk, approximate_tokens}
use secondbrain_ai.Chunking.Splitter.{RecursiveChunker, split}
use secondbrain_ai.Chunking.Whitespace.{normalise_whitespace}
use secondbrain_ai.Documents.{
  Document, DocumentChunk, DocumentStatus, pending, parsing, parsed, chunking, embedding, indexed,
  failed, get_for_owner, write_document, replace_for_document,
}
use secondbrain_ai.Indexing.Vectors.{
  VectorRecord, record_of, put_record, records_of, upsert, delete_by_document,
}

-- `IndexingResult`
pub record IndexingResult : Type 0 where
  pub document_id : ℕ
  pub chunk_count : ℕ
  pub skipped : Bool
  pub reason : Option Text

-- What is committed, and what the vector store holds.
pub record World : Type 0 where
  pub documents : List Document
  pub chunks : List DocumentChunk
  pub vectors : List VectorRecord

-- The services that indexing is given: `load_blocks` with the blocks of the parsed document, the embedder,
-- the message of the exception that a call of the vector store raises, if it does, the identifiers of new
-- rows, and the settings. `depth` is the recursion that the interpreter allows.
pub record Services : Type 0 where
  pub load_blocks : Document → Option (List TextBlock)
  pub embed_documents : List Text → Outcome Text (List (List ℕ))
  pub delete_raises : ℕ → Option Text
  pub upsert_raises : List VectorRecord → Option Text
  pub new_id : ℕ → ℕ
  pub model_name : Text
  pub chunker : RecursiveChunker
  pub depth : ℕ
  pub batch_size : ℕ

-- `status in _INDEXABLE_STATUSES`
unfoldable pub is_indexable : DocumentStatus → Bool
is_indexable pending = false
is_indexable parsing = false
is_indexable parsed = true
is_indexable chunking = true
is_indexable embedding = true
is_indexable indexed = true
is_indexable failed = false

-- `ParsedDocument.is_empty`
unfoldable pub is_empty : List TextBlock → Bool
unfolding strip
is_empty blocks = not (any (λ b. nonempty (strip b.text)) blocks)

-- `_normalised`
unfoldable pub normalised : TextBlock → TextBlock
unfolding normalise_whitespace
normalised b = record {
  text = normalise_whitespace b.text;
  page_number = b.page_number;
  section_title = b.section_title;
  heading_level = b.heading_level;
  metadata = b.metadata;
}

-- `[block for block in cleaned if block.text]`
unfoldable pub cleaned : List TextBlock → List TextBlock
unfolding normalised
cleaned blocks = keep_if (λ b. nonempty b.text) (map normalised blocks)

abbrev pub with_status : DocumentStatus → Document → Document
with_status status d = record d { status = status }

-- A document written back in a transaction of its own.
unfoldable pub save : Document → World → World
unfolding write_document
save d w = record w { documents = write_document d w.documents }

-- A document changed, if it was found.
unfoldable pub if_found : (Document → Document) → Option Document → World → World
unfolding save
if_found change none w = w
if_found change (some d) w = save (change d) w

-- `_finalise`
unfoldable pub finalise : ℕ → ℕ → ℕ → World → World
unfolding get_for_owner if_found
finalise id owner count w =
    if_found (λ d. record d { status = indexed; chunk_count = count; error_message = none })
      (get_for_owner id owner w.documents) w

-- `_record_failure`
unfoldable pub record_failure : ℕ → ℕ → Text → World → World
unfolding get_for_owner if_found
record_failure id owner message w =
    if_found
      (λ d. record d {
        status = failed;
        error_message = some (take 1000 (codes "Indexing failed: " ++ message));
      })
      (get_for_owner id owner w.documents) w

-- The row of a chunk, with the identifier of the row at this place.
unfoldable pub rows_from : Services → ℕ → ℕ → ℕ → List Chunk → List DocumentChunk
unfolding approximate_tokens
rows_from s id owner n [] = []
rows_from s id owner n (c ∷ cs) =
    record {
      id = s.new_id n;
      document_id = id;
      owner_id = owner;
      ordinal = c.ordinal;
      content = c.text;
      token_count = approximate_tokens c;
      page_number = c.page_number;
      section_title = c.section_title;
      char_start = c.char_start;
      char_end = c.char_end;
      embedding_model = none;
      chunk_metadata = c.metadata;
    }
    ∷ rows_from s id owner (suc n) cs

abbrev pub text_of : DocumentChunk → Text
text_of row = row.content

-- A part of `_embed_and_store` that ends: the world then, and the message if it raised.
abbrev pub Ended : Type 0
Ended = World × Option Text

unfoldable pub upserted : List VectorRecord → World → Option Text → Ended
unfolding upsert
upserted records w (some message) = (w, some message)
upserted records w none = (record w { vectors = upsert records w.vectors }, none)

-- Upsert of the records that a batch makes.
unfoldable pub store_records : Services → Option (List VectorRecord) → World → Ended
unfolding upserted
store_records s none w = (w, some (codes "zip() arguments differ in length"))
store_records s (some records) w = upserted records w (s.upsert_raises records)

unfoldable pub store_vectors :
    Services → List DocumentChunk → Outcome Text (List (List ℕ)) → World → Ended
unfolding store_records records_of
store_vectors s batch (raised message) w = (w, some message)
store_vectors s batch (ok vectors) w = store_records s (records_of batch vectors) w

unfoldable pub store_batch : Services → List DocumentChunk → World → Ended
unfolding store_vectors
store_batch s batch w = store_vectors s batch (s.embed_documents (map text_of batch)) w

-- `range(0, len(stored), batch_size)`: on fuel, of which the number of rows is enough. A batch that
-- raises ends the loop.
unfoldable pub and_then : Ended → (World → Ended) → Ended
and_then (w, some message) next = (w, some message)
and_then (w, none) next = next w

unfoldable pub store_batches : ℕ → Services → List DocumentChunk → World → Ended
unfolding and_then store_batch
store_batches zero s rows w = (w, none)
store_batches (suc fuel) s [] w = (w, none)
store_batches (suc fuel) s (r ∷ rs) w =
    and_then (store_batch s (take s.batch_size (r ∷ rs)) w)
      (λ x. store_batches fuel s (drop s.batch_size (r ∷ rs)) x)

-- The rows of the document marked with the model that embedded them.
unfoldable pub mark_rows : Text → ℕ → ℕ → List DocumentChunk → List DocumentChunk
mark_rows model id owner [] = []
mark_rows model id owner (c ∷ cs) =
    let rest = mark_rows model id owner cs in
    if c.document_id == id && c.owner_id == owner
    then record c { embedding_model = some model } ∷ rest
    else c ∷ rest

unfoldable pub marked : Services → ℕ → ℕ → World → Ended
unfolding mark_rows
marked s id owner w = (record w { chunks = mark_rows s.model_name id owner w.chunks }, none)

-- The rows of the chunks are committed before the old vectors are deleted and the new ones stored.
unfoldable pub stored_rows : ℕ → Document → List DocumentChunk → World → World
unfolding replace_for_document save
stored_rows id d rows w =
    let written = save (with_status embedding d) w in
    record written { chunks = replace_for_document id rows w.chunks }

unfoldable pub deleted : Services → ℕ → World → Option Text → Ended
unfolding delete_by_document
deleted s id w (some message) = (w, some message)
deleted s id w none = (record w { vectors = delete_by_document id w.vectors }, none)

-- The part of `_embed_and_store` that follows the commit of the rows.
unfoldable pub store_rows : Services → ℕ → ℕ → List DocumentChunk → World → Ended
unfolding and_then deleted store_batches marked
store_rows s id owner rows w =
    and_then (deleted s id w (s.delete_raises id))
      (λ x. and_then (store_batches (length rows) s rows x) (λ y. marked s id owner y))

unfoldable pub embed_found : Services → ℕ → ℕ → List Chunk → World → Option Document → Ended
unfolding stored_rows rows_from store_rows
embed_found s id owner chunks w none = (w, some (codes "Document disappeared during indexing."))
embed_found s id owner chunks w (some d) =
    let rows = rows_from s id owner 0 chunks in store_rows s id owner rows (stored_rows id d rows w)

-- `_embed_and_store`
unfoldable pub embed_and_store : Services → ℕ → ℕ → List Chunk → World → Ended
unfolding get_for_owner embed_found
embed_and_store s id owner chunks w =
    embed_found s id owner chunks w (get_for_owner id owner w.documents)

abbrev pub skip_with : ℕ → Text → IndexingResult
skip_with id reason = record {
  document_id = id;
  chunk_count = 0;
  skipped = true;
  reason = some reason;
}

-- The end of `index_document`, after `_embed_and_store`.
unfoldable pub concluded : ℕ → ℕ → ℕ → Ended → World × Outcome Text IndexingResult
unfolding record_failure finalise
concluded id owner count (w, some message) =
    (record_failure id owner message w, ok (skip_with id message))
concluded id owner count (w, none) = (
  finalise id owner count w,
  ok (record { document_id = id; chunk_count = count; skipped = false; reason = none }),
)

-- What follows `split`, which is called outside the `try`.
unfoldable pub after_split :
    Services → ℕ → ℕ → Option (List Chunk) → World → World × Outcome Text IndexingResult
unfolding finalise concluded embed_and_store
after_split s id owner none w = (w, raised (codes "maximum recursion depth exceeded"))
after_split s id owner (some []) w = (finalise id owner 0 w, ok (skip_with id (codes "no chunks")))
after_split s id owner (some (c ∷ cs)) w =
    concluded id owner (length (c ∷ cs)) (embed_and_store s id owner (c ∷ cs) w)

-- What follows `load_blocks`.
unfoldable pub after_load :
    Services → Document → Option (List TextBlock) → World → World × Outcome Text IndexingResult
unfolding is_empty save after_split split cleaned
after_load s d none w =
    (save (record d { status = indexed; chunk_count = 0 }) w, ok (skip_with d.id (codes "no text")))
after_load s d (some blocks) w =
    if is_empty blocks
    then (
      save (record d { status = indexed; chunk_count = 0 }) w,
      ok (skip_with d.id (codes "no text")),
    )
    else after_split s d.id d.owner_id (split s.depth s.chunker (cleaned blocks))
        (save (with_status chunking d) w)

unfoldable pub status_text : DocumentStatus → Text
status_text pending = codes "status is pending"
status_text parsing = codes "status is parsing"
status_text parsed = codes "status is parsed"
status_text chunking = codes "status is chunking"
status_text embedding = codes "status is embedding"
status_text indexed = codes "status is indexed"
status_text failed = codes "status is failed"

unfoldable pub index_found :
    Services → ℕ → Option Document → World → World × Outcome Text IndexingResult
unfolding is_indexable after_load status_text
index_found s id none w = (w, ok (skip_with id (codes "missing")))
index_found s id (some d) w =
    if is_indexable d.status
    then after_load s d (s.load_blocks d) w
    else (w, ok (skip_with id (status_text d.status)))

-- `index_document`
unfoldable pub index_document : Services → ℕ → ℕ → World → World × Outcome Text IndexingResult
unfolding get_for_owner index_found
index_document s id owner w = index_found s id (get_for_owner id owner w.documents) w

-- `document_is_searchable`
unfoldable pub document_is_searchable : Document → Bool
document_is_searchable d = elim d.status [ indexed ↦ ltb 0 d.chunk_count | _ ↦ false ]
