-- ===== src/Indexing/Settled.antt =====
-- The status of a document after `index_document` of backend/app/services/indexing.py.
use secondbrain_ai.Prelude.{
  ℕ, ◌≡◌, refl, sym, subst, ◌⊎◌, inl, inr, true, Option, none, some, List, [], ◌∷◌, ◌++◌, length,
  take, Bool-cases,
}
use secondbrain_ai.Prelude.Text.{Text, codes}
use secondbrain_ai.Prelude.Outcome.{Outcome, ok}
use secondbrain_ai.Chunking.Blocks.{TextBlock, Chunk}
use secondbrain_ai.Chunking.Splitter.{split}
use secondbrain_ai.Documents.{Document, chunking, embedding, indexed, failed}
use secondbrain_ai.Indexing.{
  Services, IndexingResult, World, Ended, save, with_status, concluded, after_split, after_load,
  index_found, index_document, is_indexable, is_empty, cleaned, embed_and_store,
}
use secondbrain_ai.Indexing.Holds.{
  get_for_owner_lem, Holds, save-Holds, finalise-Holds, record_failure-Holds, embed_and_store-Holds,
}

-- A document that is searchable or explains why it is not, as the result says.
abbrev pub SettledAs : IndexingResult → Document → Type 0
SettledAs r d =
    (d.status ≡ indexed) × (d.chunk_count ≡ r.chunk_count)
    ⊎ (d.status ≡ failed)
      × ((message : Text) × (r.reason ≡ some message)
          × (d.error_message ≡ some (take 1000 (codes "Indexing failed: " ++ message))))

abbrev pub Settles : ℕ → ℕ → World × Outcome Text IndexingResult → Type 0
Settles id owner result =
    (r : IndexingResult) × (e : Document) × (result.1 ≡ ok r)
    × Holds id owner e result.0
    × SettledAs r e

concluded-Settles :
    (id owner count : ℕ) (d : Document) (r : Ended)
    → Holds id owner d r.0
    → Settles id owner (concluded id owner count r)
unfolding concluded
concluded-Settles id owner count d (w, some message) h =
    (_, _, refl, record_failure-Holds id owner message d w h, inr (refl, (message, refl, refl)))
concluded-Settles id owner count d (w, none) h =
    (_, _, refl, finalise-Holds id owner count d w h, inl (refl, refl))

after_split-Settles :
    (s : Services) (id owner : ℕ) (chunks : List Chunk) (d : Document) (w : World)
    → Holds id owner d w
    → Settles id owner (after_split s id owner (some chunks) w)
unfolding after_split
after_split-Settles s id owner [] d w h =
    (_, _, refl, finalise-Holds id owner 0 d w h, inl (refl, refl))
after_split-Settles s id owner (c ∷ cs) d w h =
    concluded-Settles id owner (length (c ∷ cs)) (with_status embedding d)
      (embed_and_store s id owner (c ∷ cs) w) (embed_and_store-Holds s id owner (c ∷ cs) d w h)

-- The chunker returns on what was parsed.
abbrev pub Splits : Services → Document → Type 0
Splits s d =
    (blocks : List TextBlock)
    → s.load_blocks d ≡ some blocks
    → (chunks : List Chunk) × (split s.depth s.chunker (cleaned blocks) ≡ some chunks)

after_load-Settles :
    (s : Services) (d : Document) (o : Option (List TextBlock)) (w : World)
    → Holds d.id d.owner_id d w
    → ((blocks : List TextBlock)
        → o ≡ some blocks
        → (chunks : List Chunk) × (split s.depth s.chunker (cleaned blocks) ≡ some chunks))
    → Settles d.id d.owner_id (after_load s d o w)
unfolding after_load
after_load-Settles s d none w h splits =
    (_, _, refl, save-Holds d.id d.owner_id d _ w h refl refl, inl (refl, refl))
after_load-Settles s d (some blocks) w h splits = elim (Bool-cases (is_empty blocks)) [
  | inl empty ↦
      rw empty (_, _, refl, save-Holds d.id d.owner_id d _ w h refl refl, inl (refl, refl))
  | inr full ↦
      let (chunks, e) = splits blocks refl in
      rw full (
        subst
          (λ x.
            Settles d.id d.owner_id
              (after_split s d.id d.owner_id x (save (with_status chunking d) w)))
          (sym e)
          (after_split-Settles s d.id d.owner_id chunks (with_status chunking d)
            (save (with_status chunking d) w)
            (save-Holds d.id d.owner_id d (with_status chunking d) w h refl refl)))
]

-- What holds of the steps after the status was tested holds of the whole.
pub index_document_case {ℓ} :
    (P : World × Outcome Text IndexingResult → Type ℓ) (s : Services) (id owner : ℕ) (w : World)
    (d : Document)
    → Holds id owner d w
    → is_indexable d.status ≡ true
    → P (after_load s d (s.load_blocks d) w)
    → P (index_document s id owner w)
unfolding index_document index_found
index_document_case P s id owner w d h indexable p =
    subst (λ o. P (index_found s id o w)) (sym h) (rw indexable p)

-- The document by its own keys.
pub own_Holds :
    (id owner : ℕ) (d : Document) (w : World) → Holds id owner d w → Holds d.id d.owner_id d w
own_Holds id owner d w h =
    let (ids, owners) = get_for_owner_lem id owner w.documents d h in
    subst (λ x. Holds x d.owner_id d w) (sym ids) (subst (λ x. Holds id x d w) (sym owners) h)

-- If a document of the owner's has a status that may be indexed, and the chunker returns on what was parsed,
-- then `index_document` returns, whatever the embedder and the vector store raise, and the document is left
-- indexed with the number of chunks of the result, or failed with the result's reason as its error.
pub index_document-Settles :
    (s : Services) (id owner : ℕ) (w : World) (d : Document)
    → Holds id owner d w
    → is_indexable d.status ≡ true
    → Splits s d
    → Settles id owner (index_document s id owner w)
index_document-Settles s id owner w d h indexable splits =
    let (ids, owners) = get_for_owner_lem id owner w.documents d h in
    index_document_case (Settles id owner) s id owner w d h indexable (
      subst (λ x. Settles x owner (after_load s d (s.load_blocks d) w)) ids
        (subst (λ x. Settles d.id x (after_load s d (s.load_blocks d) w)) owners
          (after_load-Settles s d (s.load_blocks d) w (own_Holds id owner d w h) splits)))
