-- ===== src/Indexing/Vectors.antt =====
-- The records of the vector store: `VectorStore` of backend/app/services/vectorstore/base.py as
-- backend/app/services/indexing.py uses it.
use secondbrain_ai.Prelude.{ℕ, not, Option, none, some, List, [], ◌∷◌, ◌++◌, keep_if, any, ◌==◌}
use secondbrain_ai.Prelude.Text.{Text}
use secondbrain_ai.Documents.{DocumentChunk}

-- `VectorRecord`, with the fields of its payload that the filters read.
pub record VectorRecord : Type 0 where
  pub id : ℕ
  pub vector : List ℕ
  pub owner_id : ℕ
  pub document_id : ℕ
  pub text : Text

unfoldable pub record_of : DocumentChunk → List ℕ → VectorRecord
record_of row vector = record {
  id = row.id;
  vector = vector;
  owner_id = row.owner_id;
  document_id = row.document_id;
  text = row.content;
}

abbrev pub put_record : VectorRecord → Option (List VectorRecord) → Option (List VectorRecord)
put_record r none = none
put_record r (some rs) = some (r ∷ rs)

-- `zip(batch, vectors, strict=True)`, which raises if the lengths differ.
unfoldable pub records_of : List DocumentChunk → List (List ℕ) → Option (List VectorRecord)
unfolding record_of
records_of [] [] = some []
records_of [] (v ∷ vs) = none
records_of (r ∷ rs) [] = none
records_of (r ∷ rs) (v ∷ vs) = put_record (record_of r v) (records_of rs vs)

-- `VectorStore.upsert`: vectors replaced by their identifier.
unfoldable pub upsert : List VectorRecord → List VectorRecord → List VectorRecord
upsert records vectors = keep_if (λ v. not (any (λ r. v.id == r.id) records)) vectors ++ records

-- `VectorStore.delete_by_document`
unfoldable pub delete_by_document : ℕ → List VectorRecord → List VectorRecord
delete_by_document id vectors = keep_if (λ v. not (v.document_id == id)) vectors
