-- ===== src/Indexing/Holds.antt =====
-- The document that an index run writes is the one that the world holds afterwards.
use secondbrain_ai.Prelude.{
  ℕ, zero, suc, ◌≡◌, refl, ap, subst, ◌∙◌, inl, inr, true, false, ◌&&◌, Option, none, some, List,
  [], ◌∷◌, ◌++◌, arith, length, take, drop, Bool-cases, ◌==◌,
}
use secondbrain_ai.Prelude.Text.{Text, codes}
use secondbrain_ai.Chunking.Blocks.{Chunk}
use secondbrain_ai.Documents.{
  Document, DocumentChunk, embedding, indexed, failed, find_one, get_for_owner, write_document,
}
use secondbrain_ai.Indexing.{
  Services, World, Ended, if_found, save, with_status, finalise, record_failure, embed_and_store,
  embed_found, store_rows, and_then, deleted, store_batches, store_batch, store_vectors,
  store_records, upserted, marked, stored_rows, rows_from,
}

pub get_for_owner_lem :
    (id owner : ℕ) (ds : List Document) (d : Document)
    → get_for_owner id owner ds ≡ some d
    → (d.id ≡ id) × (d.owner_id ≡ owner)
unfolding get_for_owner find_one
get_for_owner_lem id owner [] d h = cc
get_for_owner_lem id owner (x ∷ xs) d h = elim (Bool-cases (x.id == id && x.owner_id == owner)) [
  | inl found ↦
      let at : some x ≡ some d = rw (get_for_owner, find_one, found) at h in
      let e : x ≡ d = cc in
      subst (λ z. (z.id ≡ id) × (z.owner_id ≡ owner)) e (ground arith, ground arith)
  | inr other ↦ get_for_owner_lem id owner xs d (rw (get_for_owner, find_one, other) at h)
]

-- A document that is written back is found again.
get-write_document :
    (id owner : ℕ) (ds : List Document) (d e : Document)
    → get_for_owner id owner ds ≡ some d
    → e.id ≡ id
    → e.owner_id ≡ owner
    → get_for_owner id owner (write_document e ds) ≡ some e
unfolding get_for_owner find_one write_document
get-write_document id owner [] d e h i o = cc
get-write_document id owner (x ∷ xs) d e h i o = elim (Bool-cases (x.id == e.id)) [
  | inl same ↦
      let test : (e.id == id && e.owner_id == owner) ≡ true = ground arith in rw same (rw test refl)
  | inr apart ↦
      let test : (x.id == id && x.owner_id == owner) ≡ false = ground arith in
      rw apart
        (rw test (get-write_document id owner xs d e (rw (get_for_owner, find_one, test) at h) i o))
]

-- A document of the owner's, in the state that the world holds.
abbrev pub Holds : ℕ → ℕ → Document → World → Type 0
Holds id owner d w = get_for_owner id owner w.documents ≡ some d

pub save-Holds :
    (id owner : ℕ) (d e : Document) (w : World)
    → Holds id owner d w
    → e.id ≡ d.id
    → e.owner_id ≡ d.owner_id
    → Holds id owner e (save e w)
unfolding save
save-Holds id owner d e w h i o =
    let (ids, owners) = get_for_owner_lem id owner w.documents d h in
    get-write_document id owner w.documents d e h (i ∙ ids) (o ∙ owners)

pub finalise-Holds :
    (id owner count : ℕ) (d : Document) (w : World)
    → Holds id owner d w
    → Holds id owner
        (record d { status = indexed; chunk_count = count; error_message = none })
        (finalise id owner count w)
unfolding finalise if_found
finalise-Holds id owner count d w h = rw h (save-Holds id owner d _ w h refl refl)

pub record_failure-Holds :
    (id owner : ℕ) (message : Text) (d : Document) (w : World)
    → Holds id owner d w
    → Holds id owner
        (record d {
          status = failed;
          error_message = some (take 1000 (codes "Indexing failed: " ++ message));
        })
        (record_failure id owner message w)
unfolding record_failure if_found
record_failure-Holds id owner message d w h = rw h (save-Holds id owner d _ w h refl refl)

-- The parts of `_embed_and_store` that follow the commit do not write documents.
Kept : World → Ended → Type 0
Kept w r = r.0.documents ≡ w.documents

and_then-Kept :
    (w : World) (r : Ended) (next : World → Ended)
    → Kept w r
    → ((x : World) → Kept x (next x))
    → Kept w (and_then r next)
unfolding Kept and_then
and_then-Kept w (x, some message) next h k = h
and_then-Kept w (x, none) next h k = k x ∙ h

store_batch-Kept :
    (s : Services) (batch : List DocumentChunk) (w : World) → Kept w (store_batch s batch w)
unfolding Kept store_batch store_vectors store_records upserted
store_batch-Kept s batch w = ground arith

store_batches-Kept :
    (fuel : ℕ) (s : Services) (rows : List DocumentChunk) (w : World)
    → Kept w (store_batches fuel s rows w)
unfolding store_batches
store_batches-Kept zero s rows w = unfold Kept in refl
store_batches-Kept (suc fuel) s [] w = unfold Kept in refl
store_batches-Kept (suc fuel) s (r ∷ rs) w =
    and_then-Kept w (store_batch s (take s.batch_size (r ∷ rs)) w)
      (λ x. store_batches fuel s (drop s.batch_size (r ∷ rs)) x)
      (store_batch-Kept s (take s.batch_size (r ∷ rs)) w)
      (λ x. store_batches-Kept fuel s (drop s.batch_size (r ∷ rs)) x)

deleted-Kept : (s : Services) (id : ℕ) (w : World) (o : Option Text) → Kept w (deleted s id w o)
unfolding Kept deleted
deleted-Kept s id w (some message) = refl
deleted-Kept s id w none = refl

store_rows-Kept :
    (s : Services) (id owner : ℕ) (rows : List DocumentChunk) (w : World)
    → Kept w (store_rows s id owner rows w)
unfolding store_rows
store_rows-Kept s id owner rows w =
    and_then-Kept w (deleted s id w (s.delete_raises id))
      (λ x. and_then (store_batches (length rows) s rows x) (λ y. marked s id owner y))
      (deleted-Kept s id w (s.delete_raises id))
      (λ x.
        and_then-Kept x (store_batches (length rows) s rows x) (λ y. marked s id owner y)
          (store_batches-Kept (length rows) s rows x) (λ y. unfold Kept marked in refl))

pub embed_and_store-Holds :
    (s : Services) (id owner : ℕ) (chunks : List Chunk) (d : Document) (w : World)
    → Holds id owner d w
    → Holds id owner (with_status embedding d) (embed_and_store s id owner chunks w).0
unfolding embed_and_store embed_found stored_rows Kept
embed_and_store-Holds s id owner chunks d w h =
    let rows = rows_from s id owner 0 chunks in
    let kept = store_rows-Kept s id owner rows (stored_rows id d rows w) in
    rw h (
      ap (get_for_owner id owner) kept
      ∙ save-Holds id owner d (with_status embedding d) w h refl refl)
