-- ===== src/Indexing/Store.antt =====
-- Rows and vectors after `_embed_and_store` of backend/app/services/indexing.py.
use secondbrain_ai.Prelude.{
  ℕ, ◌≤◌, zero, suc, ◌≡◌, refl, ap, subst, ◌∙◌, Option, none, some, List, [], ◌∷◌, ◌++◌, map, arith,
  take, drop, length, length-drop, All, All-append, All-take, All-keep_if, All-mono,
  take-append-drop,
}
use secondbrain_ai.Prelude.Text.{Text}
use secondbrain_ai.Prelude.Outcome.{Outcome, ok, raised}
use mathlib.Core.List.{Memᴰ}
use mathlib.Core.List.Memᴰ
use secondbrain_ai.Chunking.Blocks.{Chunk}
use secondbrain_ai.Documents.{Document, DocumentChunk, get_for_owner, replace_for_document}
use secondbrain_ai.Indexing.{
  Services, World, upserted, deleted, marked, store_rows, embed_and_store, embed_found,
  store_records, store_vectors, store_batch, and_then, store_batches, mark_rows, rows_from,
  stored_rows, Ended, text_of,
}
use secondbrain_ai.Indexing.Vectors.{VectorRecord, records_of, upsert, delete_by_document}
use secondbrain_ai.Indexing.Records.{
  Present, Backed, delete_by_document-Backed, records_of_lem, kept_or_replaced,
}

module _ (id : ℕ) (rows : List DocumentChunk) where
  -- The vectors of the document are backed by the rows.
  AllBacked : World → Type 0
  AllBacked w = All (Backed id rows) w.vectors

  -- If the part did not raise: the vectors of the document are backed, each row of the batch has one,
  -- no identifier is lost, and the rows stay.
  Stored : List DocumentChunk → World → Ended → Type 0
  unfolding AllBacked Present
  Stored batch w r =
      r.1 ≡ none
      → AllBacked w
      → AllBacked r.0
        × All (λ q. Present q.id r.0.vectors) batch
        × ((i : ℕ) → Present i w.vectors → Present i r.0.vectors)
        × (r.0.chunks ≡ w.chunks)

  nothing : (w : World) → Stored [] w (w, none)
  unfolding Stored
  nothing w h before = (before, tt, λ i p. p, refl)

  All-drop :
      (n : ℕ) (qs : List DocumentChunk)
      → All (λ r. Memᴰ r rows) qs
      → All (λ r. Memᴰ r rows) (drop n qs)
  All-drop zero qs h = h
  All-drop (suc n) [] h = tt
  All-drop (suc n) (q ∷ qs) h = All-drop n qs h.1

  upserted-Stored :
      (records : List VectorRecord) (batch : List DocumentChunk) (w : World) (o : Option Text)
      → All (Backed id rows) records
      → All (λ r. Present r.id records) batch
      → Stored batch w (upserted records w o)
  unfolding Stored upserted AllBacked
  upserted-Stored records batch w (some message) backed present h before = cc
  upserted-Stored records batch w none backed present h before = (
    All-append _ _ records (All-keep_if _ _ w.vectors before) backed,
    All-mono _ _ batch (λ q p. new_one q.id records w.vectors p) present,
    λ i p. kept_or_replaced i records w.vectors p,
    refl,
  )
    where
      new_one : (i : ℕ) (rs vs : List VectorRecord) → Present i rs → Present i (upsert rs vs)
      new_one i rs vs (v, m, e) = (v, Memᴰ.append_right _ m, e)

  store_records-Stored :
      (s : Services) (batch : List DocumentChunk) (vectors : List (List ℕ)) (w : World)
      (o : Option (List VectorRecord))
      → records_of batch vectors ≡ o
      → All (λ r. Memᴰ r rows) batch
      → Stored batch w (store_records s o w)
  unfolding Stored store_records
  store_records-Stored s batch vectors w none e inside = λ h before. cc
  store_records-Stored s batch vectors w (some records) e inside =
      let (backed, present) = records_of_lem id rows batch vectors records inside e in
      upserted-Stored records batch w (s.upsert_raises records) backed present

  store_vectors-Stored :
      (s : Services) (batch : List DocumentChunk) (o : Outcome Text (List (List ℕ))) (w : World)
      → All (λ r. Memᴰ r rows) batch
      → Stored batch w (store_vectors s batch o w)
  unfolding Stored store_vectors
  store_vectors-Stored s batch (raised message) w inside = λ h before. cc
  store_vectors-Stored s batch (ok vectors) w inside =
      store_records-Stored s batch vectors w (records_of batch vectors) refl inside

  store_batch-Stored :
      (s : Services) (batch : List DocumentChunk) (w : World)
      → All (λ r. Memᴰ r rows) batch
      → Stored batch w (store_batch s batch w)
  unfolding store_batch
  store_batch-Stored s batch w inside =
      store_vectors-Stored s batch (s.embed_documents (map text_of batch)) w inside

  and_then-Stored :
      (batch later : List DocumentChunk) (w : World) (r : Ended) (next : World → Ended)
      → Stored batch w r
      → ((x : World) → Stored later x (next x))
      → Stored (batch ++ later) w (and_then r next)
  unfolding Stored and_then
  and_then-Stored batch later w (x, some message) next first second h before = cc
  and_then-Stored batch later w (x, none) next first second h before =
      let (backed, present, kept, same) = first refl before in
      let (backed2, present2, kept2, same2) = second x h backed in
      (
        backed2,
        All-append _ batch later (All-mono _ _ batch (λ q p. kept2 q.id p) present) present2,
        λ i p. kept2 i (kept i p),
        same2 ∙ same,
      )

  -- The loop stores all rows, if its batches are not empty.
  store_batches-Stored :
      (s : Services) (fuel : ℕ) (batch : List DocumentChunk) (w : World)
      → 1 ≤ s.batch_size
      → length batch ≤ fuel
      → All (λ r. Memᴰ r rows) batch
      → Stored batch w (store_batches fuel s batch w)
  unfolding store_batches
  store_batches-Stored s zero [] w size enough inside = nothing w
  store_batches-Stored s zero (r ∷ rs) w size enough inside = absurd (omega (arith, enough))
  store_batches-Stored s (suc fuel) [] w size enough inside = nothing w
  store_batches-Stored s (suc fuel) (r ∷ rs) w size enough inside =
      let front = take s.batch_size (r ∷ rs) in
      let later = drop s.batch_size (r ∷ rs) in
      let shorter : length later ≤ fuel =
        omega (arith, length-drop s.batch_size (r ∷ rs), enough, size) in
      subst (λ x. Stored x w (and_then (store_batch s front w) (λ y. store_batches fuel s later y)))
        (take-append-drop s.batch_size (r ∷ rs))
        (and_then-Stored front later w (store_batch s front w) (λ y. store_batches fuel s later y)
          (store_batch-Stored s front w (All-take _ s.batch_size (r ∷ rs) inside))
          (λ y.
            store_batches-Stored s fuel later y size shorter
              (All-drop s.batch_size (r ∷ rs) inside)))

and_then_case {ℓ} :
    (P : World → Type ℓ) (r : Ended) (next : World → Ended)
    → (and_then r next).1 ≡ none
    → (r.1 ≡ none → (next r.0).1 ≡ none → P (next r.0).0)
    → P (and_then r next).0
unfolding and_then
and_then_case P (w, some message) next h k = cc
and_then_case P (w, none) next h k = k refl h

deleted_case {ℓ} :
    (P : World → Type ℓ) (s : Services) (id : ℕ) (w : World) (o : Option Text)
    → (deleted s id w o).1 ≡ none
    → P (record w { vectors = delete_by_document id w.vectors })
    → P (deleted s id w o).0
unfolding deleted
deleted_case P s id w (some message) h k = cc
deleted_case P s id w none h k = k

All-inside : (rows : List DocumentChunk) → All (λ r. Memᴰ r rows) rows
All-inside [] = tt
All-inside (r ∷ rs) = (Memᴰ.head refl, All-mono _ _ rs (λ q m. Memᴰ.tail m) (All-inside rs))

-- The rows and the vectors of a document that was indexed.
abbrev pub Consistent : Services → ℕ → ℕ → List DocumentChunk → World → World → Type 0
Consistent s id owner rows w after =
    All (Backed id rows) after.vectors
    × All (λ r. Present r.id after.vectors) rows
    × (after.chunks ≡ mark_rows s.model_name id owner w.chunks)

batches-Consistent :
    (s : Services) (id owner : ℕ) (rows : List DocumentChunk) (w : World)
    → 1 ≤ s.batch_size
    → All (Backed id rows) w.vectors
    → (and_then (store_batches (length rows) s rows w) (λ y. marked s id owner y)).1 ≡ none
    → Consistent s id owner rows w
        (and_then (store_batches (length rows) s rows w) (λ y. marked s id owner y)).0
unfolding marked Stored AllBacked
batches-Consistent s id owner rows w size clean h =
    and_then_case (Consistent s id owner rows w) (store_batches (length rows) s rows w)
      (λ y. marked s id owner y) h
      (λ ended last.
        let (backed, present, kept, same) =
          store_batches-Stored id rows s (length rows) rows w size (omega arith) (All-inside rows)
            ended clean in
        (backed, present, ap (mark_rows s.model_name id owner) same))

store_rows-Consistent :
    (s : Services) (id owner : ℕ) (rows : List DocumentChunk) (w : World)
    → 1 ≤ s.batch_size
    → (store_rows s id owner rows w).1 ≡ none
    → Consistent s id owner rows w (store_rows s id owner rows w).0
unfolding store_rows
store_rows-Consistent s id owner rows w size h =
    let x = (deleted s id w (s.delete_raises id)).0 in
    and_then_case (Consistent s id owner rows w) (deleted s id w (s.delete_raises id))
      (λ x. and_then (store_batches (length rows) s rows x) (λ y. marked s id owner y)) h
      (λ ended last.
        let (clean, same) =
          deleted_case (λ y. All (Backed id rows) y.vectors × (y.chunks ≡ w.chunks)) s id w
            (s.delete_raises id) ended (delete_by_document-Backed id rows w.vectors, refl) in
        let (backed, present, marks) = batches-Consistent s id owner rows x size clean last in
        (backed, present, marks ∙ ap (mark_rows s.model_name id owner) same))

-- If `_embed_and_store` does not raise, its document is there and the batches are not empty, then the
-- passages of the document are the rows of its chunks, marked with the model; each of them has a vector;
-- and each vector of the document has the identifier and the text of one of them.
pub embed_and_store_consistent :
    (s : Services) (id owner : ℕ) (chunks : List Chunk) (w : World) (d : Document)
    → get_for_owner id owner w.documents ≡ some d
    → 1 ≤ s.batch_size
    → (embed_and_store s id owner chunks w).1 ≡ none
    → All
        (Backed id (rows_from s id owner 0 chunks))
        (embed_and_store s id owner chunks w).0.vectors
      × All
          (λ r. Present r.id (embed_and_store s id owner chunks w).0.vectors)
          (rows_from s id owner 0 chunks)
      × ((embed_and_store s id owner chunks w).0.chunks
          ≡ mark_rows s.model_name id owner
              (replace_for_document id (rows_from s id owner 0 chunks) w.chunks))
unfolding embed_and_store embed_found stored_rows
embed_and_store_consistent s id owner chunks w d found size h =
    at (get_for_owner id owner w.documents) found h
  where
    rows : List DocumentChunk
    rows = rows_from s id owner 0 chunks

    at :
        (o : Option Document)
        → o ≡ some d
        → (embed_found s id owner chunks w o).1 ≡ none
        → All (Backed id rows) (embed_found s id owner chunks w o).0.vectors
          × All (λ r. Present r.id (embed_found s id owner chunks w o).0.vectors) rows
          × ((embed_found s id owner chunks w o).0.chunks
              ≡ mark_rows s.model_name id owner (replace_for_document id rows w.chunks))
    at none e k = cc
    at (some x) e k = store_rows-Consistent s id owner rows (stored_rows id x rows w) size k
