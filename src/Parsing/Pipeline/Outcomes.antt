-- ===== src/Parsing/Pipeline/Outcomes.antt =====
-- The outcome that `parse_document` records.
use secondbrain_ai.Prelude.{ℕ, ◌≡◌, refl, ap, ◌∙◌, ◌⊎◌, inl, inr, none, some, List, take}
use secondbrain_ai.Prelude.Text.{Text, text_eq_refl}
use secondbrain_ai.Prelude.Outcome.{Outcome, ok, raised}
use secondbrain_ai.Documents.{Document, parsed, failed, get_for_owner}
use secondbrain_ai.Indexing.{World, save, if_found}
use secondbrain_ai.Indexing.Holds.{Holds, save-Holds}
use secondbrain_ai.Parsing.Base.{ParsedDocument, words_of_blocks}
use secondbrain_ai.Parsing.Payload.{stored_payload}
use secondbrain_ai.Parsing.Payload.Reads.{parsed-stored_payload}
use secondbrain_ai.Parsing.Registry.{ParseFailure}
use secondbrain_ai.Parsing.Pipeline.{
  Archive, ParsingServices, StoredBlocks, blocks_key_of, put_derived, object_at, as_parsed, load_at,
  load_parsed, extract, failure_message, as_failed, record_parse_failure, as_parsed_row,
  record_parsed, after_put_derived, record_outcome, started, parse_found, parse_document,
}

object_at-put_derived :
    (key : Text) (p : ParsedDocument) (objects : List StoredBlocks)
    → object_at key (put_derived key p objects)
      ≡ some (record { key = key; payload = stored_payload p })
unfolding object_at put_derived
object_at-put_derived key p objects = rw (text_eq_refl key) refl

-- What was parsed is read back.
load-put_derived :
    (key : Text) (p : ParsedDocument) (objects : List StoredBlocks) (d : Document)
    → load_parsed (put_derived key p objects) (as_parsed_row key p d) ≡ some p
unfolding load_parsed as_parsed load_at
load-put_derived key p objects d =
    ap (as_parsed (as_parsed_row key p d)) (object_at-put_derived key p objects)
    ∙ parsed-stored_payload p.page_count p

-- The document as the outcome of its parse leaves it.
abbrev pub Recorded : ParsingServices → Document → Document → List StoredBlocks → Archive → Type 0
Recorded s d e before a =
    ((p : ParsedDocument) × (extract s d ≡ ok p)
      × (e.status ≡ parsed)
      × (e.error_message ≡ none)
      × (e.word_count ≡ some (words_of_blocks p.blocks))
      × (load_parsed a.derived e ≡ some p))
    ⊎ ((f : ParseFailure) × (extract s d ≡ raised f)
        × (e.status ≡ failed)
        × (e.error_message ≡ some (take 1000 (failure_message f)))
        × (a.derived ≡ before))

-- What other requests commit during the parse leaves the document as it is.
abbrev pub Undisturbed : ParsingServices → ℕ → ℕ → Type 0
Undisturbed s id owner =
    (w : World)
    → get_for_owner id owner (s.meanwhile w).documents ≡ get_for_owner id owner w.documents

abbrev pub Parsed :
    ParsingServices
    → ℕ
    → ℕ
    → Document
    → List StoredBlocks
    → Archive × Outcome Text (Unit {0})
    → Type 0
Parsed s id owner d before result =
    (e : Document) × (result.1 ≡ ok tt)
    × Holds id owner e result.0.world
    × Recorded s d e before result.0

module _ (s : ParsingServices) (id owner : ℕ) (d x : Document) (a : Archive)
    (here : Holds id owner x a.world) where
  after_put-Parsed :
      (key : Text) (p : ParsedDocument)
      → extract s d ≡ ok p
      → Parsed s id owner d a.derived (after_put_derived s id owner key p none a)
  unfolding after_put_derived record_parsed
  after_put-Parsed key p e = rw here (
    as_parsed_row key p x,
    refl,
    save-Holds id owner x (as_parsed_row key p x) a.world here refl refl,
    inl (p, e, refl, refl, refl, load-put_derived key p a.derived x),
  )

  record_outcome-Parsed :
      (o : Outcome ParseFailure ParsedDocument)
      → extract s d ≡ o
      → s.put_raises (blocks_key_of d) ≡ none
      → Parsed s id owner d a.derived (record_outcome s id owner d o a)
  unfolding record_outcome record_parse_failure if_found
  record_outcome-Parsed (ok p) e room = rw room (after_put-Parsed (blocks_key_of d) p e)
  record_outcome-Parsed (raised f) e room = rw here (
    as_failed (failure_message f) x,
    refl,
    save-Holds id owner x (as_failed (failure_message f) x) a.world here refl refl,
    inr (f, e, refl, refl, refl),
  )

-- If the blocks can be written and no other request touches the document meanwhile, `parse_document`
-- returns. If the file could be read and parsed, the document is parsed, has the number of words, and
-- `load_blocks` reads back what was parsed; otherwise it is failed with the first 1000 characters of
-- the reason as its error, and no blocks are written.
pub parse_document-Parsed :
    (s : ParsingServices) (id owner : ℕ) (a : Archive) (d : Document)
    → Holds id owner d a.world
    → Undisturbed s id owner
    → s.put_raises (blocks_key_of d) ≡ none
    → Parsed s id owner d a.derived (parse_document s id owner a)
unfolding parse_document parse_found
parse_document-Parsed s id owner a d h quiet room =
    let begun = save-Holds id owner d (started d) a.world h refl refl in
    let here = quiet (save (started d) a.world) ∙ begun in
    rw h (
      record_outcome-Parsed s id owner d (started d)
        (record a { world = s.meanwhile (save (started d) a.world) }) here (extract s d) refl room)
