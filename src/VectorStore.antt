-- ===== src/VectorStore.antt =====
-- backend/app/services/vectorstore/qdrant_store.py: the writes of the adapter of Qdrant.
pub mod Index
pub mod Windows
pub mod Replayed
mod Tests
use secondbrain_ai.Prelude.{
  ℕ, zero, suc, ◌≡◌, ◌⊎◌, Bool, Option, none, some, List, [], ◌∷◌, take, drop, length, ◌==◌,
  if◌then◌else◌,
}
use mathlib.Core.List.{Memᴰ}
use secondbrain_ai.Prelude.Outcome.{Outcome, ok, raised}
use secondbrain_ai.Indexing.Vectors.{VectorRecord}
use secondbrain_ai.Retry.{Raised, Call, Tenacity, with_retry, default_attempts, is_exception}

-- What a store holds under each identifier: what `VectorStore` of
-- backend/app/services/vectorstore/base.py promises to keep.
abbrev pub PointIndex : Type 0
PointIndex = ℕ → Option VectorRecord

abbrev pub put_point : VectorRecord → PointIndex → PointIndex
put_point p m i = if p.id == i then some p else m i

-- Points inserted or replaced by their identifiers, the last one of an identifier staying.
abbrev pub overlay : List VectorRecord → PointIndex → PointIndex
overlay [] m = m
overlay (p ∷ ps) m = overlay ps (put_point p m)

-- The condition of `_delete_where`: a key of the payload and its value.
pub data Where : Type 0 where
  document_is : ℕ → Where
  owner_is : ℕ → Where

abbrev pub meets : Where → VectorRecord → Bool
meets (document_is id) p = p.document_id == id
meets (owner_is id) p = p.owner_id == id

abbrev pub unless_meets : Where → Option VectorRecord → Option VectorRecord
unless_meets c none = none
unless_meets c (some p) = if meets c p then none else some p

-- One of the points, with this identifier.
abbrev pub OneOf : List VectorRecord → ℕ → Option VectorRecord → Type 0
OneOf points i o = (p : VectorRecord) × Memᴰ p points × (p.id ≡ i) × (o ≡ some p)

-- The client of Qdrant, on a collection that exists, with what its documentation says: `upsert`
-- inserts or overwrites points by their identifiers, and `delete` removes the points that meet the
-- condition; a call that raises may have written some of its points.
pub record QdrantClient : Type 1 where
  pub State : Type 0
  pub write_points : List VectorRecord → Call State (Unit {0})
  pub delete_points : Where → Call State (Unit {0})
  pub point_at : State → PointIndex
  pub written :
      (points : List VectorRecord) (s s' : State)
      → write_points points s ≡ (s', ok tt)
      → point_at s' ≡ overlay points (point_at s)
  pub partly_written :
      (points : List VectorRecord) (s s' : State) (e : Raised)
      → write_points points s ≡ (s', raised e)
      → (i : ℕ) → (point_at s' i ≡ point_at s i) ⊎ OneOf points i (point_at s' i)
  pub removed :
      (c : Where) (s s' : State)
      → delete_points c s ≡ (s', ok tt)
      → point_at s' ≡ (λ i. unless_meets c (point_at s i))

module _ (t : Tenacity) (q : QdrantClient) where
  -- The retried call for one window of the records.
  unfoldable pub upsert_window : List VectorRecord → Call q.State (Unit {0})
  unfolding with_retry
  upsert_window window = with_retry t default_attempts is_exception (q.write_points window)

  abbrev pub then_windows :
      q.State × Outcome Raised (Unit {0})
      → Call q.State (Unit {0})
      → q.State × Outcome Raised (Unit {0})
  then_windows (s, raised e) next = (s, raised e)
  then_windows (s, ok u) next = next s

  -- `range(0, len(records), batch_size)`: on fuel, of which the number of records is enough.
  unfoldable pub upsert_windows : ℕ → ℕ → List VectorRecord → Call q.State (Unit {0})
  unfolding upsert_window
  upsert_windows zero size records s = (s, ok tt)
  upsert_windows (suc fuel) size [] s = (s, ok tt)
  upsert_windows (suc fuel) size (r ∷ rs) s =
      then_windows (upsert_window (take size (r ∷ rs)) s)
        (λ x. upsert_windows fuel size (drop size (r ∷ rs)) x)

  -- `upsert`
  unfoldable pub upsert_records : ℕ → List VectorRecord → Call q.State (Unit {0})
  unfolding upsert_windows
  upsert_records size records s = upsert_windows (length records) size records s

-- A write of the adapter.
pub data Write : Type 0 where
  upsert_of : List VectorRecord → Write
  delete_of : Where → Write

module _ (t : Tenacity) (q : QdrantClient) (size : ℕ) where
  -- `upsert`, and `delete_by_document` and `delete_by_owner`, which are `_delete_where`.
  unfoldable pub perform : Write → Call q.State (Unit {0})
  unfolding upsert_records
  perform (upsert_of records) s = upsert_records t q size records s
  perform (delete_of c) s = q.delete_points c s

  -- Writes one after the other, up to the first that raises.
  unfoldable pub perform_all : List Write → Call q.State (Unit {0})
  unfolding perform
  perform_all [] s = (s, ok tt)
  perform_all (w ∷ ws) s = then_windows t q (perform w s) (λ x. perform_all ws x)
