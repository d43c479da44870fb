-- ===== src/Retrieval/Tests.antt =====
-- A small library of passages, and instances of the theorems of retrieval.
use secondbrain_ai.Prelude.{
  ℕ, ◌+◌, ◌≤◌, ◌≡◌, refl, inr, ◌||◌, ◌&&◌, none, [], ◌∷◌, arith, length, All, leb, ◌==◌,
  if◌then◌else◌,
}
use secondbrain_ai.Prelude.Text.{Text, codes, contains, lower_ascii}
use secondbrain_ai.Documents.{Document, DocumentChunk, pending}
use secondbrain_ai.Retrieval.Terms.{Unicode, significant_terms}
use secondbrain_ai.Retrieval.Snippets.{make_snippet}
use secondbrain_ai.Retrieval.Snippets.Window.{Shows, make_snippet-Shows}
use secondbrain_ai.Retrieval.Ranking.{Fused, reciprocal_rank_fusion}
use secondbrain_ai.Retrieval.Ranking.Scores.{Absent}
use secondbrain_ai.Retrieval.Ranking.Agreement.{rankings_of, NoneBehind, agreement_first}
use secondbrain_ai.Retrieval.Search.{Services, Tables, SearchQuery, hybrid, search, keyword_search}
use secondbrain_ai.Retrieval.Search.Scoped.{Owned, search_scoped}

abbrev ascii : Unicode
ascii = record { lower = lower_ascii; is_word = λ c. (leb 97 c && leb c 122) || c == 95 }

-- A vector store that does not keep to its filter.
abbrev services : Services
services = record { vector_search = λ text f limit. 11 ∷ 12 ∷ []; round = λ f. f; unicode = ascii }

abbrev document : ℕ → ℕ → Document
document id owner = record {
  id = id;
  owner_id = owner;
  collection_id = none;
  title = codes "Notes";
  original_filename = codes "notes.txt";
  mime_type = codes "text/plain";
  extension = codes "txt";
  size_bytes = 3;
  content_hash = id;
  storage_key = codes "key";
  status = pending;
  error_message = none;
  page_count = none;
  word_count = none;
  blocks_key = none;
  chunk_count = 1;
}

abbrev passage : ℕ → ℕ → ℕ → Text → DocumentChunk
passage id document_id owner content = record {
  id = id;
  document_id = document_id;
  owner_id = owner;
  ordinal = 0;
  content = content;
  token_count = 1;
  page_number = none;
  section_title = none;
  char_start = none;
  char_end = none;
  embedding_model = none;
  chunk_metadata = [];
}

abbrev tables : Tables
tables = record {
  documents = document 1 7 ∷ document 2 8 ∷ [];
  chunks = passage 11 1 7 (codes "an axb here") ∷ passage 12 2 8 (codes "secret") ∷ [];
}

abbrev query : SearchQuery
query = record { text = codes "a_b"; limit = 5; document_ids = []; extensions = []; mode = hybrid }

-- The underscore of a term is a wildcard of the pattern: a passage that contains no term is found.
keyword_search_wildcard : keyword_search services tables (codes "a_b") 7 query 30 ≡ 11 ∷ []
unfolding keyword_search
keyword_search_wildcard = refl

search_scoped_example :
    All (Owned tables 7) (search services tables query 7)
    × (length (search services tables query 7) ≤ 5)
search_scoped_example = search_scoped services tables query 7

agreement_first_example :
    (¬ Absent 2 (reciprocal_rank_fusion (rankings_of (1 ∷ 2 ∷ []) (3 ∷ 2 ∷ []))))
    × NoneBehind 2 1 (reciprocal_rank_fusion (rankings_of (1 ∷ 2 ∷ []) (3 ∷ 2 ∷ [])))
unfolding secondbrain_ai.Retrieval.Ranking.Scores.Distinct
    secondbrain_ai.Retrieval.Ranking.Scores.rank_of
agreement_first_example =
    agreement_first (1 ∷ 2 ∷ []) (3 ∷ 2 ∷ []) ((omega arith, tt), (tt, tt))
      ((omega arith, tt), (tt, tt)) (omega arith) (omega arith) 2 1 2 2 refl refl (inr refl)

make_snippet_run : make_snippet ascii (codes "one two three") (codes "two") 6 ≡ codes "…e two…"
unfolding make_snippet
make_snippet_run = refl

make_snippet-Shows_example : Shows ascii (codes "one Two three") (codes "two") 6
unfolding significant_terms contains
make_snippet-Shows_example =
    make_snippet-Shows ascii (λ c. if leb 65 c && leb c 90 then c + 32 else c) (λ t. refl)
      (codes "one Two three") (codes "two") 6 (omega arith, tt) refl
