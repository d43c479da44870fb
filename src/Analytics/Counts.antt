-- ===== src/Analytics/Counts.antt =====
-- The documents that the dashboard counts.
use secondbrain_ai.Prelude.{
  ℕ, suc, ◌+◌, ◌≡◌, refl, ◌∙◌, inl, inr, Bool, List, [], ◌∷◌, arith, Bool-cases, ◌==◌,
  if◌then◌else◌,
}
use secondbrain_ai.Documents.{Document, DocumentStatus, indexed, failed}
use secondbrain_ai.Analytics.{StatusCount, status_eq, is_in_flight, DocumentCounts, document_counts}
use secondbrain_ai.Analytics.Statuses.{
  number, any_status, Grouped, sum_if, sum_counts_any, sum_in_flight_if, sum_if-numbers,
  numbers-number, count_of-number, number_unlisted,
}

-- The counts of any set of statuses, added, are the number of the owner's documents with such a status.
sum_if-number :
    (owner : ℕ) (p : DocumentStatus → Bool) (ds : List Document) (groups : List StatusCount)
    → Grouped owner ds groups
    → sum_if p groups ≡ number owner p ds
sum_if-number owner p ds groups g =
    sum_if-numbers owner p ds groups g.counted ∙ numbers-number owner p groups ds g.grouped

-- The four figures stand for the documents of the owner.
pub record Counted (owner : ℕ) (ds : List Document) (c : DocumentCounts) : Type 0 where
  pub of_all : c.total ≡ number owner any_status ds
  pub of_indexed : c.indexed_count ≡ number owner (status_eq indexed) ds
  pub of_failed : c.failed_count ≡ number owner (status_eq failed) ds
  pub of_pending : c.pending_count ≡ number owner is_in_flight ds
  pub adds_up : c.total ≡ c.indexed_count + c.failed_count + c.pending_count

one_more :
    (s : DocumentStatus) (a b c n : ℕ)
    → n ≡ a + b + c
    → suc n
      ≡ (if status_eq indexed s then suc a else a)
        + (if status_eq failed s then suc b else b)
        + (if is_in_flight s then suc c else c)
unfolding status_eq is_in_flight
one_more DocumentStatus.pending a b c n h = omega (arith, h)
one_more DocumentStatus.parsing a b c n h = omega (arith, h)
one_more DocumentStatus.parsed a b c n h = omega (arith, h)
one_more DocumentStatus.chunking a b c n h = omega (arith, h)
one_more DocumentStatus.embedding a b c n h = omega (arith, h)
one_more DocumentStatus.indexed a b c n h = omega (arith, h)
one_more DocumentStatus.failed a b c n h = omega (arith, h)

-- Each document is indexed, failed or in flight.
number_partition :
    (owner : ℕ) (ds : List Document)
    → number owner any_status ds
      ≡ number owner (status_eq indexed) ds
        + number owner (status_eq failed) ds
        + number owner is_in_flight ds
unfolding number
number_partition owner [] = refl
number_partition owner (d ∷ ds) =
    let rest = number_partition owner ds in
    elim (Bool-cases (d.owner_id == owner)) [
      | inl e ↦ rw e (one_more d.status _ _ _ _ rest)
      | inr e ↦ rw e rest
    ]

-- For whatever groups the query may return, in any order, the dashboard's four figures are the numbers of
-- the owner's documents: in all, indexed, failed and neither of the two; and the last three add up to the first.
pub document_counts-Counted :
    (owner : ℕ) (ds : List Document) (groups : List StatusCount)
    → Grouped owner ds groups
    → Counted owner ds (document_counts groups)
unfolding document_counts
document_counts-Counted owner ds groups g =
    let all_of = sum_counts_any groups ∙ sum_if-number owner any_status ds groups g in
    let indexed_of =
      count_of-number owner indexed ds groups g.counted
        (number_unlisted owner indexed groups ds g.grouped) in
    let failed_of =
      count_of-number owner failed ds groups g.counted
        (number_unlisted owner failed groups ds g.grouped) in
    let pending_of = sum_in_flight_if groups ∙ sum_if-number owner is_in_flight ds groups g in
    record {
      of_all = all_of;
      of_indexed = indexed_of;
      of_failed = failed_of;
      of_pending = pending_of;
      adds_up = rw (all_of, indexed_of, failed_of, pending_of) (number_partition owner ds);
    }
