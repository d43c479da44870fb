-- ===== src/Indexing/Tests.antt =====
-- Runs of indexing over a small world, and instances of its theorems.
use secondbrain_ai.Prelude.{
  ℕ, ◌+◌, ◌≤◌, ◌≡◌, refl, subst, Bool, true, false, Option, none, some, List, [], ◌∷◌, ◌++◌, map,
  arith, All,
}
use secondbrain_ai.Prelude.Text.{Text, codes}
use secondbrain_ai.Prelude.Outcome.{ok}
use secondbrain_ai.Chunking.Blocks.{TextBlock, Chunk}
use secondbrain_ai.Chunking.Splitter.{split}
use secondbrain_ai.Documents.{Document, parsed, replace_for_document, get_for_owner}
use secondbrain_ai.Indexing.{
  Services, World, index_document, is_indexable, is_empty, cleaned, embed_and_store, rows_from,
  mark_rows,
}
use secondbrain_ai.Indexing.Vectors.{VectorRecord}
use secondbrain_ai.Indexing.Records.{Backed, Present}
use secondbrain_ai.Indexing.Store.{embed_and_store_consistent}
use secondbrain_ai.Indexing.Settled.{Settles, Splits, index_document-Settles}
use secondbrain_ai.Indexing.Failures.{Escapes, index_document-Escapes}

abbrev block_of : Text → TextBlock
block_of t = record {
  text = t;
  page_number = none;
  section_title = none;
  heading_level = none;
  metadata = [];
}

abbrev services : List TextBlock → Services
services blocks = record {
  load_blocks = λ d. some blocks;
  embed_documents = λ texts. ok (map (λ t. 1 ∷ []) texts);
  delete_raises = λ id. none;
  upsert_raises = λ records. none;
  new_id = λ n. 100 + n;
  model_name = codes "small";
  chunker = record { chunk_size = 8; overlap = 2; min_chars = 1 };
  depth = 900;
  batch_size = 1;
}

abbrev document : Document
document = record {
  id = 1;
  owner_id = 7;
  collection_id = none;
  title = codes "Notes";
  original_filename = codes "notes.txt";
  mime_type = codes "text/plain";
  extension = codes "txt";
  size_bytes = 3;
  content_hash = 5;
  storage_key = codes "key";
  status = parsed;
  error_message = none;
  page_count = none;
  word_count = none;
  blocks_key = none;
  chunk_count = 0;
}

-- A vector of an earlier run stands in the store.
abbrev world : World
world = record {
  documents = document ∷ [];
  chunks = [];
  vectors = record { id = 50; vector = []; owner_id = 7; document_id = 1; text = [] } ∷ [];
}

abbrev two : List TextBlock
two = block_of (codes "one two") ∷ block_of (codes "three") ∷ []

abbrev ids : List VectorRecord → List ℕ
ids [] = []
ids (v ∷ vs) = v.id ∷ ids vs

index_document_run : ids (index_document (services two) 1 7 world).0.vectors ≡ 100 ∷ 101 ∷ []
unfolding index_document
index_document_run = refl

two_splits :
    (chunks : List Chunk) × (split 900
        (record { chunk_size = 8; overlap = 2; min_chars = 1 })
        (cleaned two)
      ≡ some chunks)
unfolding split cleaned
two_splits = (_, refl)

services-Splits : Splits (services two) document
services-Splits blocks e =
    let same : two ≡ blocks = cc in
    subst
      (λ b.
        (chunks : List Chunk) × (split 900 (record { chunk_size = 8; overlap = 2; min_chars = 1 })
            (cleaned b)
          ≡ some chunks))
      same two_splits

index_document-Settles_example : Settles 1 7 (index_document (services two) 1 7 world)
unfolding is_indexable get_for_owner
index_document-Settles_example =
    index_document-Settles (services two) 1 7 world document refl refl services-Splits

abbrev chunk : Chunk
chunk = record {
  text = codes "one";
  ordinal = 0;
  page_number = none;
  section_title = none;
  char_start = none;
  char_end = none;
  metadata = [];
}

embed_and_store_consistent_example :
    All
      (Backed 1 (rows_from (services two) 1 7 0 (chunk ∷ [])))
      (embed_and_store (services two) 1 7 (chunk ∷ []) world).0.vectors
    × All
        (λ r. Present r.id (embed_and_store (services two) 1 7 (chunk ∷ []) world).0.vectors)
        (rows_from (services two) 1 7 0 (chunk ∷ []))
    × ((embed_and_store (services two) 1 7 (chunk ∷ []) world).0.chunks
        ≡ mark_rows
            (codes "small")
            1
            7
            (replace_for_document 1 (rows_from (services two) 1 7 0 (chunk ∷ [])) []))
unfolding embed_and_store get_for_owner
embed_and_store_consistent_example =
    embed_and_store_consistent (services two) 1 7 (chunk ∷ []) world document refl (omega arith)
      refl

abbrev overlong : List TextBlock
overlong = block_of (codes "ABCDEFGHIJ xyz") ∷ []

index_document-Escapes_example : Escapes 1 7 document (index_document (services overlong) 1 7 world)
unfolding is_indexable get_for_owner is_empty cleaned secondbrain_ai.Prelude.Text.strip
index_document-Escapes_example =
    index_document-Escapes (services overlong) 1 7 world document overlong [] []
      (block_of (codes "ABCDEFGHIJ xyz")) (codes "ABCDEFGHIJ") (codes "xyz") refl refl refl refl
      refl refl (omega arith) (omega arith) (omega arith)
