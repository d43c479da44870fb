-- ===== src/Analytics/Tests.antt =====
-- The dashboard and the log of searches at concrete inputs.
use secondbrain_ai.Prelude.{ℕ, ◌≡◌, refl, none, List, [], ◌∷◌}
use secondbrain_ai.Prelude.Text.{Text}
use secondbrain_ai.Documents.{Document, DocumentStatus, indexed}
use secondbrain_ai.Analytics.{normalize_query, median_ms, status_eq, StatusCount, document_counts}
use secondbrain_ai.Analytics.Statuses.{number, occurs, Grouped}
use secondbrain_ai.Analytics.Counts.{Counted, document_counts-Counted}

abbrev as_is : Text → Text
as_is t = t

-- " a  \t b " is kept as "a b".
normalize_example : normalize_query as_is (32 ∷ 97 ∷ 32 ∷ 32 ∷ 9 ∷ 98 ∷ 32 ∷ []) ≡ 97 ∷ 32 ∷ 98 ∷ []
unfolding normalize_query
normalize_example = refl

median_of_four : median_ms (1 ∷ 5 ∷ 8 ∷ 90 ∷ []) ≡ 8
unfolding median_ms
median_of_four = refl

median_of_none : median_ms [] ≡ 0
unfolding median_ms
median_of_none = refl

abbrev owned_document : ℕ → ℕ → DocumentStatus → Document
owned_document i owner s = record {
  id = i;
  owner_id = owner;
  collection_id = none;
  title = [];
  original_filename = [];
  mime_type = [];
  extension = [];
  size_bytes = 1;
  content_hash = i;
  storage_key = [];
  status = s;
  error_message = none;
  page_count = none;
  word_count = none;
  blocks_key = none;
  chunk_count = 0;
}

abbrev library : List Document
library =
    owned_document 1 7 indexed
    ∷ owned_document 2 7 DocumentStatus.parsing
    ∷ owned_document 3 8 indexed
    ∷ owned_document 4 7 indexed
    ∷ []

abbrev groups_of_seven : List StatusCount
groups_of_seven =
    record { status = DocumentStatus.parsing; count = 1 }
    ∷ record { status = indexed; count = 2 }
    ∷ []

groups-Grouped : Grouped 7 library groups_of_seven
unfolding number occurs status_eq
groups-Grouped = record {
  counted = (refl, (refl, tt));
  grouped = ((λ h. refl), ((λ h. refl), ((λ h. refl), ((λ h. refl), tt))));
}

document_counts-Counted_example : Counted 7 library (document_counts groups_of_seven)
document_counts-Counted_example = document_counts-Counted 7 library groups_of_seven groups-Grouped
