-- ===== src/Retrieval/Search/Scoped.antt =====
-- Whose passages `search` of backend/app/services/retrieval.py returns, and how many.
use secondbrain_ai.Prelude.{
  ℕ, ◌*◌, ◌≤◌, suc, max, ◌≡◌, refl, sym, ap, subst, Bool, true, ◌&&◌, Option, none, some, List, [],
  ◌∷◌, arith, length, length-take, take, All, Bool-cases, ◌==◌, inl, inr,
}
use secondbrain_ai.Prelude.Text.{Text, strip}
use mathlib.Core.List.{Memᴰ}
use secondbrain_ai.Documents.{Document, DocumentChunk, find_one}
use secondbrain_ai.Retrieval.Ranking.{Fused, reciprocal_rank_fusion}
use secondbrain_ai.Retrieval.Ranking.Agreement.{rankings_of}
use secondbrain_ai.Retrieval.Search.{
  Services, Tables, SearchQuery, SearchHit, document_of, paired, with_document, hydrate, hit_of,
  add_hit, hits_of, search, by_mode, dense_search, keyword_search,
}

pub find_one-some {ℓ} :
    {A : Type ℓ} (p : A → Bool) (xs : List A) (x : A)
    → find_one p xs ≡ some x
    → Memᴰ x xs × (p x ≡ true)
unfolding find_one
find_one-some p [] x h = cc
find_one-some p (y ∷ ys) x h = elim (Bool-cases (p y)) [
  | inl yes_y ↦
      let at : some y ≡ some x = rw (find_one, yes_y) at h in
      let e : x ≡ y = cc in (Memᴰ.head e, subst (λ z. p z ≡ true) (sym e) yes_y)
  | inr no_y ↦
      let at : find_one p ys ≡ some x = rw (find_one, no_y) at h in
      let (m, px) = find_one-some p ys x at in (Memᴰ.tail m, px)
]

-- A hit that shows a passage of the owner, with the document that the passage is of.
abbrev pub Owned : Tables → ℕ → SearchHit → Type 0
Owned tables owner hit =
    (c : DocumentChunk) × (d : Document) × Memᴰ c tables.chunks
    × Memᴰ d tables.documents
    × (c.owner_id ≡ owner)
    × (c.document_id ≡ d.id)
    × (hit.chunk_id ≡ c.id)
    × (hit.document_id ≡ d.id)
    × (hit.text ≡ c.content)
    × (hit.document_title ≡ d.title)

paired_lem :
    (x c : DocumentChunk) (d : Document) (o : Option Document)
    → paired x o ≡ some (c, d)
    → (x ≡ c) × (o ≡ some d)
paired_lem x c d none h = cc
paired_lem x c d (some y) h = (cc, cc)

joined_lem :
    (documents : List Document) (o : Option DocumentChunk) (c : DocumentChunk) (d : Document)
    → with_document documents o ≡ some (c, d)
    → (o ≡ some c) × (document_of documents c ≡ some d)
unfolding with_document
joined_lem documents none c d h = cc
joined_lem documents (some x) c d h =
    let (e, f) = paired_lem x c d (document_of documents x) h in
    (ap some e, subst (λ z. document_of documents z ≡ some d) e f)

hydrate_lem :
    (tables : Tables) (owner id : ℕ) (c : DocumentChunk) (d : Document)
    → hydrate tables owner id ≡ some (c, d)
    → Memᴰ c tables.chunks × Memᴰ d tables.documents × (c.owner_id ≡ owner) × (c.document_id ≡ d.id)
unfolding hydrate document_of
hydrate_lem tables owner id c d h =
    let (e, f) = joined_lem tables.documents _ c d h in
    let (m, test) = find_one-some (λ z. z.id == id && z.owner_id == owner) tables.chunks c e in
    let (n, key) = find_one-some (λ z. z.id == c.document_id) tables.documents d f in
    (m, n, ground arith, ground arith)

add_hit-Owned :
    (s : Services) (tables : Tables) (text : Text) (owner : ℕ) (f : Fused)
    (o : Option (DocumentChunk × Document)) (hits : List SearchHit)
    → hydrate tables owner f.chunk_id ≡ o
    → All (Owned tables owner) hits
    → (All (Owned tables owner) (add_hit s text f o hits))
      × (length (add_hit s text f o hits) ≤ suc (length hits))
unfolding add_hit hit_of
add_hit-Owned s tables text owner f none hits e rest = (rest, omega arith)
add_hit-Owned s tables text owner f (some (c, d)) hits e rest =
    let (m, n, owned, of_document) = hydrate_lem tables owner f.chunk_id c d e in
    (((c, d, m, n, owned, of_document, refl, refl, refl, refl), rest), omega arith)

hits_of-Owned :
    (s : Services) (tables : Tables) (text : Text) (owner : ℕ) (fs : List Fused)
    → All (Owned tables owner) (hits_of s tables text owner fs)
      × (length (hits_of s tables text owner fs) ≤ length fs)
unfolding hits_of
hits_of-Owned s tables text owner [] = (tt, omega arith)
hits_of-Owned s tables text owner (f ∷ fs) =
    let (rest, fewer) = hits_of-Owned s tables text owner fs in
    let (all_owned, one_more) =
      add_hit-Owned s tables text owner f _ (hits_of s tables text owner fs) refl rest in
    (all_owned, omega (arith, fewer, one_more))

-- Whatever the vector store answers, each hit of a search is a passage of the owner, shown with the text of
-- the passage and the title of its document, and there are at most `limit` hits.
pub search_scoped :
    (s : Services) (tables : Tables) (query : SearchQuery) (owner : ℕ)
    → All (Owned tables owner) (search s tables query owner)
      × (length (search s tables query owner) ≤ query.limit)
unfolding search
search_scoped s tables query owner = at (strip query.text) refl
  where
    at :
        (t : Text)
        → strip query.text ≡ t
        → All (Owned tables owner) (search s tables query owner)
          × (length (search s tables query owner) ≤ query.limit)
    at [] e = rw (search, e) (tt, omega arith)
    at (c ∷ t) e =
        let depth = max (query.limit * 3) 30 in
        let found =
          by_mode query.mode (dense_search s (c ∷ t) owner query depth)
            (keyword_search s tables (c ∷ t) owner query depth) in
        let top = take query.limit (reciprocal_rank_fusion (rankings_of found.0 found.1)) in
        rw (search, e)
          (
            (hits_of-Owned s tables (c ∷ t) owner top).0,
            omega (
              arith,
              (hits_of-Owned s tables (c ∷ t) owner top).1,
              length-take query.limit (reciprocal_rank_fusion (rankings_of found.0 found.1)),
            ),
          )
