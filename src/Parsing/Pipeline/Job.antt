-- ===== src/Parsing/Pipeline/Job.antt =====
-- The background job of an upload: parsing, then indexing of what was parsed.
use secondbrain_ai.Prelude.{ℕ, ◌≡◌, refl, sym, ap, subst, ◌∙◌, ◌⊎◌, inl, inr, none, some, List}
use secondbrain_ai.Prelude.Text.{Text}
use secondbrain_ai.Prelude.Outcome.{Outcome, ok, raised}
use secondbrain_ai.Chunking.Blocks.{Chunk}
use secondbrain_ai.Chunking.Splitter.{split}
use secondbrain_ai.Documents.{Document, failed, indexed}
use secondbrain_ai.Indexing
use secondbrain_ai.Indexing.{
  World, IndexingResult, index_document, index_found, is_indexable, cleaned, skip_with, status_text,
}
use secondbrain_ai.Indexing.Holds.{Holds}
use secondbrain_ai.Indexing.Settled.{Settles, index_document-Settles}
use secondbrain_ai.Parsing.Base.{ParsedDocument}
use secondbrain_ai.Parsing.Pipeline.{
  Archive, ParsingServices, StoredBlocks, blocks_key_of, extract, blocks_of, reading,
  indexed_archive, then_index, parse_document, parse_then_index,
}
use secondbrain_ai.Parsing.Pipeline.Outcomes.{Undisturbed, Recorded, parse_document-Parsed}

-- A document that is indexed, or failed with an error that says why.
abbrev pub Explained : Document → Type 0
Explained e =
    (e.status ≡ indexed)
    ⊎ ((e.status ≡ failed) × ((message : Text) × (e.error_message ≡ some message)))

abbrev pub Finished : ℕ → ℕ → Archive × Outcome Text (Unit {0}) → Type 0
Finished id owner result =
    (e : Document) × (result.1 ≡ ok tt) × Holds id owner e result.0.world × Explained e

indexed_archive-Finished :
    (id owner : ℕ) (a : Archive) (x : World × Outcome Text IndexingResult)
    → Settles id owner x
    → Finished id owner (indexed_archive a x)
indexed_archive-Finished id owner a (w, ok r) (q, e, same, holds, inl (done, count)) =
    (e, refl, holds, inl done)
indexed_archive-Finished id owner a (w, ok r)
      (q, e, same, holds, inr (gone, (message, why, kept))) =
    (e, refl, holds, inr (gone, (_, kept)))
indexed_archive-Finished id owner a (w, raised m) (q, e, same, holds, settled) = cc

-- A failed document is not indexed.
index_document-failed :
    (s : Indexing.Services) (id owner : ℕ) (w : World) (d : Document)
    → Holds id owner d w
    → d.status ≡ failed
    → index_document s id owner w ≡ (w, ok (skip_with id (status_text failed)))
unfolding index_document index_found is_indexable
index_document-failed s id owner w d h e = rw h (rw e refl)

module _ (s : Indexing.Services) (id owner : ℕ) where
  then_index-Finished :
      (p : ParsingServices) (d e : Document) (r : Archive × Outcome Text (Unit {0}))
      (before : List StoredBlocks)
      → r.1 ≡ ok tt
      → Holds id owner e r.0.world
      → ((q : ParsedDocument)
          → extract p d ≡ ok q
          → (chunks : List Chunk) × (split s.depth s.chunker (cleaned q.blocks) ≡ some chunks))
      → Recorded p d e before r.0
      → Finished id owner (then_index s id owner r)
  unfolding then_index
  then_index-Finished p d e (a, raised m) before returned holds splits recorded = cc
  then_index-Finished p d e (a, ok u) before returned holds splits
        (inl (q, read, status, error, words, loaded)) =
      let settled : Settles id owner (index_document (reading a.derived s) id owner a.world) =
        index_document-Settles (reading a.derived s) id owner a.world e holds
          (unfold is_indexable in rw status refl)
          (λ blocks load.
            let same : some q.blocks ≡ some blocks = ap blocks_of (sym loaded) ∙ load in
            let same' : q.blocks ≡ blocks = cc in
            let (chunks, cut) = splits q read in
            (chunks, subst (λ x. split s.depth s.chunker (cleaned x) ≡ some chunks) same' cut)) in
      indexed_archive-Finished id owner a (index_document (reading a.derived s) id owner a.world)
        settled
  then_index-Finished p d e (a, ok u) before returned holds splits
        (inr (f, lost, status, error, kept)) =
      rw (index_document-failed (reading a.derived s) id owner a.world e holds status)
        (e, refl, holds, inr (status, (_, error)))

-- If the blocks can be written, no other request touches the document meanwhile, and the chunker
-- returns on what the file is parsed into, then the job returns and leaves the document indexed, or
-- failed with an error message: whatever the parser, the embedder and the vector store raise, it does
-- not stay in a state between.
pub parse_then_index-Finished :
    (p : ParsingServices) (s : Indexing.Services) (id owner : ℕ) (a : Archive) (d : Document)
    → Holds id owner d a.world
    → Undisturbed p id owner
    → p.put_raises (blocks_key_of d) ≡ none
    → ((q : ParsedDocument)
        → extract p d ≡ ok q
        → (chunks : List Chunk) × (split s.depth s.chunker (cleaned q.blocks) ≡ some chunks))
    → Finished id owner (parse_then_index p s id owner a)
unfolding parse_then_index
parse_then_index-Finished p s id owner a d h quiet room splits =
    let (e, returned, holds, recorded) = parse_document-Parsed p id owner a d h quiet room in
    then_index-Finished s id owner p d e (parse_document p id owner a) a.derived returned holds
      splits recorded
