-- ===== src/Indexing/Failures.antt =====
-- The exception that `index_document` of backend/app/services/indexing.py does not catch.
use secondbrain_ai.Prelude.{
  ℕ, ◌≤◌, ◌≡◌, refl, sym, subst, true, false, none, some, List, ◌∷◌, ◌++◌, length,
}
use secondbrain_ai.Prelude.Text.{Text, codes}
use secondbrain_ai.Prelude.Outcome.{Outcome, raised}
use secondbrain_ai.Chunking.Blocks.{TextBlock}
use secondbrain_ai.Chunking.Splitter.{split, stripped}
use secondbrain_ai.Chunking.Splitter.Results.{split_diverges}
use secondbrain_ai.Chunking.Oversized.Divergence.{Word}
use secondbrain_ai.Documents.{Document, chunking}
use secondbrain_ai.Indexing.{
  Services, IndexingResult, World, save, with_status, after_split, after_load, index_document,
  is_indexable, is_empty, cleaned,
}
use secondbrain_ai.Indexing.Holds.{Holds, save-Holds}
use secondbrain_ai.Indexing.Settled.{index_document_case}

-- The exception leaves `index_document`, and the document is left at `chunking`, without an error message
-- that was not there before.
abbrev pub Escapes : ℕ → ℕ → Document → World × Outcome Text IndexingResult → Type 0
Escapes id owner d result =
    (result.1 ≡ raised (codes "maximum recursion depth exceeded"))
    × Holds id owner (with_status chunking d) result.0

after_load-Escapes :
    (s : Services) (id owner : ℕ) (d : Document) (blocks : List TextBlock) (w : World)
    → Holds id owner d w
    → is_empty blocks ≡ false
    → split s.depth s.chunker (cleaned blocks) ≡ none
    → Escapes id owner d (after_load s d (some blocks) w)
unfolding after_load after_split
after_load-Escapes s id owner d blocks w h full e = rw full (
    subst
      (λ x. Escapes id owner d (after_split s d.id d.owner_id x (save (with_status chunking d) w)))
      (sym e) (refl, save-Holds id owner d (with_status chunking d) w h refl refl))

-- If a document of the owner's may be indexed, and what was parsed has a block that, tidied, is a word of
-- at least the chunk size, a space and another word, then `index_document` raises and the document is left
-- at `chunking`, however deep the interpreter lets the recursion go.
pub index_document-Escapes :
    (s : Services) (id owner : ℕ) (w : World) (d : Document) (blocks before after : List TextBlock)
    (block : TextBlock) (long_word word : Text)
    → Holds id owner d w
    → is_indexable d.status ≡ true
    → s.load_blocks d ≡ some blocks
    → is_empty blocks ≡ false
    → cleaned blocks ≡ before ++ block ∷ after
    → stripped block ≡ long_word ++ 32 ∷ word
    → s.chunker.chunk_size ≤ length long_word
    → Word long_word
    → Word word
    → Escapes id owner d (index_document s id owner w)
index_document-Escapes s id owner w d blocks before after block u v h ok_status loaded full tidy
      words long hu hv =
    let e : split s.depth s.chunker (cleaned blocks) ≡ none =
      subst (λ x. split s.depth s.chunker x ≡ none) (sym tidy)
        (split_diverges s.depth s.chunker block u v words long hu hv before after) in
    index_document_case (Escapes id owner d) s id owner w d h ok_status (
      subst (λ x. Escapes id owner d (after_load s d x w)) (sym loaded)
        (after_load-Escapes s id owner d blocks w h full e))
