-- ===== src/Retrieval/Search.antt =====
-- `RetrievalService.search` of backend/app/services/retrieval.py and its two retrievers.
pub mod Scoped
use secondbrain_ai.Prelude.{
  ℕ, ◌+◌, ◌*◌, suc, max, Bool, true, false, not, ◌&&◌, ◌||◌, Option, none, some, List, [], ◌∷◌,
  ◌++◌, map, take, keep_if, any, ltb, ◌==◌, if◌then◌else◌,
}
use secondbrain_ai.Prelude.Text.{Text, codes, text_eq, strip, contains}
use secondbrain_ai.Documents.{Document, DocumentChunk, find_one}
use secondbrain_ai.Retrieval.Terms.{Unicode, significant_terms}
use secondbrain_ai.Retrieval.Snippets.{make_snippet}
use secondbrain_ai.Retrieval.Ranking.{Fraction, Fused, reciprocal_rank_fusion}
use secondbrain_ai.Retrieval.Ranking.Agreement.{rankings_of}

-- `SearchHit`
pub record SearchHit : Type 0 where
  pub chunk_id : ℕ
  pub document_id : ℕ
  pub document_title : Text
  pub filename : Text
  pub extension : Text
  pub text : Text
  pub score : Fraction
  pub page_number : Option ℕ
  pub section_title : Option Text
  pub matched_by : List Text
  pub snippet : Text

-- `query.mode`
pub data Mode : Type 0 where
  hybrid semantic keyword : Mode

-- `SearchQuery`: an empty list of documents or of extensions is none.
pub record SearchQuery : Type 0 where
  pub text : Text
  pub limit : ℕ
  pub document_ids : List ℕ
  pub extensions : List Text
  pub mode : Mode

-- `SearchFilter`, of which `search` sets these fields.
pub record SearchFilter : Type 0 where
  pub owner_id : ℕ
  pub document_ids : List ℕ
  pub extensions : List Text

-- The services beside the database: the embedding of a query with the search of its vector in the vector
-- store, the interpreter's `round(score, 6)` and its Unicode tables.
pub record Services : Type 0 where
  pub vector_search : Text → SearchFilter → ℕ → List ℕ
  pub round : Fraction → Fraction
  pub unicode : Unicode

pub record Tables : Type 0 where
  pub documents : List Document
  pub chunks : List DocumentChunk

-- `_dense_search`
unfoldable pub dense_search : Services → Text → ℕ → SearchQuery → ℕ → List ℕ
dense_search s text owner query limit =
    s.vector_search text
      (record {
        owner_id = owner;
        document_ids = query.document_ids;
        extensions = query.extensions;
      })
      limit

-- The passages joined to their documents.
unfoldable pub document_of : List Document → DocumentChunk → Option Document
unfolding find_one
document_of documents c = find_one (λ d. d.id == c.document_id) documents

-- `LIKE` of a pattern without `%`, from the front of the text on: `_` stands for any character.
unfoldable pub like_front : Text → Text → Bool
like_front [] t = true
like_front (c ∷ p) [] = false
like_front (c ∷ p) (d ∷ t) = (c == 95 || c == d) && like_front p t

-- `ILIKE` of the pattern between two `%`, of texts whose case `str.lower` has folded.
unfoldable pub like_within : Text → Text → Bool
unfolding like_front
like_within p [] = like_front p []
like_within p (c ∷ t) = like_front p (c ∷ t) || like_within p t

abbrev pub none_or_in : ℕ → List ℕ → Bool
none_or_in x [] = true
none_or_in x (y ∷ ys) = any (λ z. x == z) (y ∷ ys)

abbrev pub extension_in : Option Document → List Text → Bool
unfolding text_eq
extension_in none es = false
extension_in (some d) [] = true
extension_in (some d) (e ∷ es) = any (λ x. text_eq d.extension x) (e ∷ es)

-- The `where` clauses of `_keyword_search`.
unfoldable pub is_candidate : Services → Tables → List Text → ℕ → SearchQuery → DocumentChunk → Bool
unfolding document_of like_within extension_in
is_candidate s tables terms owner query c =
    c.owner_id == owner
    && none_or_in c.document_id query.document_ids
    && extension_in (document_of tables.documents c) query.extensions
    && any (λ term. like_within (s.unicode.lower term) (s.unicode.lower c.content)) terms

-- The number of terms that a text contains.
unfoldable pub count_terms : List Text → Text → ℕ
unfolding contains
count_terms [] content = 0
count_terms (term ∷ terms) content =
    if contains term content then count_terms terms content + 1 else count_terms terms content

-- `sorted` by the count, in reverse.
unfoldable pub insert_count : (ℕ × ℕ) → List (ℕ × ℕ) → List (ℕ × ℕ)
insert_count (n, id) [] = (n, id) ∷ []
insert_count (n, id) ((m, j) ∷ rest) =
    let later = insert_count (n, id) rest in
    if ltb n m then (m, j) ∷ later else (n, id) ∷ (m, j) ∷ rest

unfoldable pub sort_counts : List (ℕ × ℕ) → List (ℕ × ℕ)
unfolding insert_count
sort_counts [] = []
sort_counts (x ∷ xs) = insert_count x (sort_counts xs)

abbrev pub id_of : ℕ × ℕ → ℕ
id_of (n, id) = id

-- `_keyword_search`. The rows come in the order of the table.
unfoldable pub keyword_search : Services → Tables → Text → ℕ → SearchQuery → ℕ → List ℕ
unfolding significant_terms is_candidate count_terms sort_counts
keyword_search s tables text owner query limit =
    let terms = significant_terms s.unicode text in
    let candidates =
      take (limit * 2) (keep_if (is_candidate s tables terms owner query) tables.chunks) in
    let counted = map (λ c. (count_terms terms (s.unicode.lower c.content), c.id)) candidates in
    map id_of (take limit (sort_counts counted))

abbrev pub paired : DocumentChunk → Option Document → Option (DocumentChunk × Document)
paired c none = none
paired c (some d) = some (c, d)

unfoldable pub with_document :
    List Document → Option DocumentChunk → Option (DocumentChunk × Document)
unfolding document_of
with_document documents none = none
with_document documents (some c) = paired c (document_of documents c)

-- `_hydrate`, for one chunk: the row of this id that is the owner's, with its document.
unfoldable pub hydrate : Tables → ℕ → ℕ → Option (DocumentChunk × Document)
unfolding find_one with_document
hydrate tables owner id =
    with_document tables.documents (find_one (λ c. c.id == id && c.owner_id == owner) tables.chunks)

unfoldable pub hit_of : Services → Text → Fused → DocumentChunk → Document → SearchHit
unfolding make_snippet
hit_of s text f chunk document = record {
  chunk_id = chunk.id;
  document_id = document.id;
  document_title = document.title;
  filename = document.original_filename;
  extension = document.extension;
  text = chunk.content;
  score = s.round f.score;
  page_number = chunk.page_number;
  section_title = chunk.section_title;
  matched_by = f.sources;
  snippet = make_snippet s.unicode chunk.content text 240;
}

unfoldable pub add_hit :
    Services → Text → Fused → Option (DocumentChunk × Document) → List SearchHit → List SearchHit
unfolding hit_of
add_hit s text f none hits = hits
add_hit s text f (some (chunk, document)) hits = hit_of s text f chunk document ∷ hits

-- The loop over the best: a chunk without a row is skipped.
unfoldable pub hits_of : Services → Tables → Text → ℕ → List Fused → List SearchHit
unfolding hydrate add_hit
hits_of s tables text owner [] = []
hits_of s tables text owner (f ∷ fs) =
    add_hit s text f (hydrate tables owner f.chunk_id) (hits_of s tables text owner fs)

abbrev pub by_mode : Mode → List ℕ → List ℕ → List ℕ × List ℕ
by_mode hybrid dense words = (dense, words)
by_mode semantic dense words = (dense, [])
by_mode keyword dense words = ([], words)

-- `search`
unfoldable pub search : Services → Tables → SearchQuery → ℕ → List SearchHit
unfolding strip dense_search keyword_search reciprocal_rank_fusion hits_of
search s tables query owner = elim (strip query.text) [
  | [] ↦ []
  | c ∷ t ↦
      let depth = max (query.limit * 3) 30 in
      let found =
        by_mode query.mode (dense_search s (c ∷ t) owner query depth)
          (keyword_search s tables (c ∷ t) owner query depth) in
      let ranked = reciprocal_rank_fusion (rankings_of found.0 found.1) in
      hits_of s tables (c ∷ t) owner (take query.limit ranked)
]
