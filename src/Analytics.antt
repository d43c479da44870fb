-- ===== src/Analytics.antt =====
-- backend/app/services/analytics.py: the log of searches and the figures of the dashboard.
pub mod Statuses
pub mod Counts
mod Tests
use secondbrain_ai.Prelude.{
  ℕ, zero, suc, ◌+◌, ◌/◌, ◌≡◌, ◌≢◌, Bool, true, false, not, ◌&&◌, ◌||◌, Option, none, some, List,
  [], ◌∷◌, ◌++◌, take, length, keep_if, map, All, leb, ◌==◌, if◌then◌else◌,
}
use secondbrain_ai.Prelude.Text.{Text, is_space, strip}
use secondbrain_ai.Documents.{Document, DocumentStatus, indexed, failed}

-- A space for each run of space; the flag says that the character before was space.
unfoldable pub collapse_space : Bool → Text → Text
unfolding is_space
collapse_space before [] = []
collapse_space before (c ∷ t) =
    let rest = collapse_space (is_space c) t in
    if is_space c then (if before then rest else 32 ∷ rest) else c ∷ rest

-- `normalize_query`, given `str.lower`.
unfoldable pub normalize_query : (Text → Text) → Text → Text
unfolding collapse_space strip
normalize_query lower query = take 512 (collapse_space false (lower (strip query)))

-- `SearchEvent`
pub record SearchEvent : Type 0 where
  pub owner_id : ℕ
  pub query : Text
  pub normalized_query : Text
  pub hit_count : ℕ
  pub took_ms : ℕ
  pub mode : Text
  pub top_document_id : Option ℕ
  pub created_at : ℕ

-- `record_search` at a time: a flush that raises is swallowed, and nothing is logged.
unfoldable pub record_search :
    (Text → Text)
    → Bool
    → ℕ
    → ℕ
    → Text
    → ℕ
    → ℕ
    → Text
    → Option ℕ
    → List SearchEvent
    → List SearchEvent
unfolding normalize_query
record_search lower flush_raises now owner query hit_count took_ms mode top_document events =
    if flush_raises
    then events
    else events
      ++ record {
        owner_id = owner;
        query = take 512 query;
        normalized_query = normalize_query lower query;
        hit_count = hit_count;
        took_ms = took_ms;
        mode = mode;
        top_document_id = top_document;
        created_at = now;
      }
        ∷ []

-- A group of a `GROUP BY` on the status, with its count.
pub record StatusCount : Type 0 where
  pub status : DocumentStatus
  pub count : ℕ

unfoldable pub status_eq : DocumentStatus → DocumentStatus → Bool
status_eq DocumentStatus.pending DocumentStatus.pending = true
status_eq DocumentStatus.parsing DocumentStatus.parsing = true
status_eq DocumentStatus.parsed DocumentStatus.parsed = true
status_eq DocumentStatus.chunking DocumentStatus.chunking = true
status_eq DocumentStatus.embedding DocumentStatus.embedding = true
status_eq DocumentStatus.indexed DocumentStatus.indexed = true
status_eq DocumentStatus.failed DocumentStatus.failed = true
status_eq a b = false

-- `by_status.get(status, 0)`
unfoldable pub count_of : DocumentStatus → List StatusCount → ℕ
unfolding status_eq
count_of s [] = 0
count_of s (g ∷ gs) = let rest = count_of s gs in if status_eq g.status s then g.count else rest

unfoldable pub sum_counts : List StatusCount → ℕ
sum_counts [] = 0
sum_counts (g ∷ gs) = g.count + sum_counts gs

-- `status not in {INDEXED, FAILED}`
unfoldable pub is_in_flight : DocumentStatus → Bool
is_in_flight indexed = false
is_in_flight failed = false
is_in_flight s = true

unfoldable pub sum_in_flight : List StatusCount → ℕ
unfolding is_in_flight
sum_in_flight [] = 0
sum_in_flight (g ∷ gs) =
    let rest = sum_in_flight gs in if is_in_flight g.status then g.count + rest else rest

-- The four figures of `_document_counts`.
pub record DocumentCounts : Type 0 where
  pub total : ℕ
  pub indexed_count : ℕ
  pub failed_count : ℕ
  pub pending_count : ℕ

-- `_document_counts` of the groups that the query returns: it has no status twice, so that the dict of
-- them has each.
unfoldable pub document_counts : List StatusCount → DocumentCounts
unfolding sum_counts count_of sum_in_flight
document_counts groups = record {
  total = sum_counts groups;
  indexed_count = count_of indexed groups;
  failed_count = count_of failed groups;
  pending_count = sum_in_flight groups;
}

abbrev pub item_or : ℕ → ℕ → List ℕ → ℕ
item_or d n [] = d
item_or d zero (x ∷ xs) = x
item_or d (suc n) (x ∷ xs) = item_or d n xs

-- `durations[len(durations) // 2] if durations else 0`
unfoldable pub median_ms : List ℕ → ℕ
median_ms durations = item_or 0 (length durations / 2) durations

-- `SearchEvent.created_at >= now - 7 days`, in seconds.
unfoldable pub searches_since : ℕ → ℕ → List SearchEvent → ℕ
searches_since owner since events =
    length (keep_if (λ e. e.owner_id == owner && leb since e.created_at) events)
