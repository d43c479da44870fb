-- ===== src/Documents.antt =====
-- backend/app/models/document.py, backend/app/repositories/document.py and
-- backend/app/repositories/chunk.py: the tables of documents and of their passages.
use secondbrain_ai.Prelude.{
  ℕ, Bool, not, ◌&&◌, Option, none, some, List, [], ◌∷◌, ◌++◌, keep_if, ◌==◌, if◌then◌else◌,
}
use secondbrain_ai.Prelude.Text.{Text}
use secondbrain_ai.Chunking.Blocks.{Metadata}

-- `DocumentStatus`
pub data DocumentStatus : Type 0 where
  pending parsing parsed chunking embedding indexed failed : DocumentStatus

-- `Document`, without the columns that only the interface reads. `blocks_key` is the entry of that
-- name in `doc_metadata`.
pub record Document : Type 0 where
  pub id : ℕ
  pub owner_id : ℕ
  pub collection_id : Option ℕ
  pub title : Text
  pub original_filename : Text
  pub mime_type : Text
  pub extension : Text
  pub size_bytes : ℕ
  pub content_hash : ℕ
  pub storage_key : Text
  pub status : DocumentStatus
  pub error_message : Option Text
  pub page_count : Option ℕ
  pub word_count : Option ℕ
  pub blocks_key : Option Text
  pub chunk_count : ℕ

-- `DocumentChunk`
pub record DocumentChunk : Type 0 where
  pub id : ℕ
  pub document_id : ℕ
  pub owner_id : ℕ
  pub ordinal : ℕ
  pub content : Text
  pub token_count : ℕ
  pub page_number : Option ℕ
  pub section_title : Option Text
  pub char_start : Option ℕ
  pub char_end : Option ℕ
  pub embedding_model : Option Text
  pub chunk_metadata : Metadata

-- The first row that passes the test, as `find_one_by` takes it.
unfoldable pub find_one {ℓ} : {A : Type ℓ} → (A → Bool) → List A → Option A
find_one p [] = none
find_one p (x ∷ xs) = let rest = find_one p xs in if p x then some x else rest

-- `DocumentRepository.get_for_owner`
unfoldable pub get_for_owner : ℕ → ℕ → List Document → Option Document
unfolding find_one
get_for_owner id owner documents = find_one (λ d. d.id == id && d.owner_id == owner) documents

-- `DocumentRepository.find_by_content_hash`
unfoldable pub find_by_content_hash : ℕ → ℕ → List Document → Option Document
unfolding find_one
find_by_content_hash hash owner documents =
    find_one (λ d. d.owner_id == owner && d.content_hash == hash) documents

-- The rows after the flush of a changed object, which updates where the identifier is its own.
unfoldable pub write_document : Document → List Document → List Document
write_document d [] = []
write_document d (e ∷ es) =
    let rest = write_document d es in if e.id == d.id then d ∷ rest else e ∷ rest

-- `SQLAlchemyRepository.delete` of a document, with the cascade on its passages.
unfoldable pub delete_document : ℕ → List Document → List Document
delete_document id documents = keep_if (λ d. not (d.id == id)) documents

-- `ChunkRepository.delete_for_document`
unfoldable pub delete_for_document : ℕ → List DocumentChunk → List DocumentChunk
delete_for_document id chunks = keep_if (λ c. not (c.document_id == id)) chunks

-- `ChunkRepository.replace_for_document`
unfoldable pub replace_for_document :
    ℕ → List DocumentChunk → List DocumentChunk → List DocumentChunk
unfolding delete_for_document
replace_for_document id rows chunks = delete_for_document id chunks ++ rows
