-- ===== src/VectorStore/Replayed.antt =====
-- The writes of the adapter refine those of a finite map from identifiers to points.
use secondbrain_ai.Prelude.{ℕ, ◌<◌, ◌≡◌, refl, sym, ap, ◌∙◌, inl, inr, List, [], ◌∷◌}
use secondbrain_ai.Prelude.Outcome.{Outcome, ok, raised}
use secondbrain_ai.Retry.{Raised, Tenacity}
use secondbrain_ai.VectorStore.{
  PointIndex, overlay, unless_meets, QdrantClient, Write, upsert_of, delete_of, then_windows,
  upsert_records, perform, perform_all,
}
use secondbrain_ai.VectorStore.Windows.{Upserted, upsert_records-Upserted}

-- What a write does to the map.
abbrev pub replay : Write → PointIndex → PointIndex
replay (upsert_of records) m = overlay records m
replay (delete_of c) m = λ i. unless_meets c (m i)

abbrev pub replay_all : List Write → PointIndex → PointIndex
replay_all [] m = m
replay_all (w ∷ ws) m = replay_all ws (replay w m)

module _ (t : Tenacity) (q : QdrantClient) (size : ℕ) (some_size : 0 < size) where
  perform-replay :
      (w : Write) (s s' : q.State)
      → perform t q size w s ≡ (s', ok tt)
      → q.point_at s' ≡ replay w (q.point_at s)
  unfolding perform
  perform-replay (delete_of c) s s' h = q.removed c s s' h
  perform-replay (upsert_of records) s s' h =
      whole (upsert_records-Upserted t q size records s some_size)
    where
      whole :
          Upserted t q records s (upsert_records t q size records s)
          → q.point_at s' ≡ overlay records (q.point_at s)
      whole (inl (returned, index)) =
          ap (λ (r : q.State × Outcome Raised (Unit {0})). q.point_at r.0) (sym h) ∙ index
      whole (inr (e, raises, partly)) =
          let both : ok tt ≡ raised e = ap (λ r. r.1) (sym h) ∙ raises in cc

  then_windows_ok :
      (r : q.State × Outcome Raised (Unit {0}))
      (next : q.State → q.State × Outcome Raised (Unit {0})) (s' : q.State)
      → then_windows t q r next ≡ (s', ok tt)
      → (s : q.State) × (r ≡ (s, ok tt)) × (next s ≡ (s', ok tt))
  then_windows_ok (s, raised e) next s' h = let both : raised e ≡ ok tt = ap (λ r. r.1) h in cc
  then_windows_ok (s, ok tt) next s' h = (s, refl, h)

  -- If a sequence of upserts and deletions returns, then the store holds, under each identifier, what
  -- a map from identifiers to points holds after the same writes, however often a call was made again
  -- and whatever the calls that raised had written.
  pub perform_all-replay :
      (ws : List Write) (s s' : q.State)
      → perform_all t q size ws s ≡ (s', ok tt)
      → q.point_at s' ≡ replay_all ws (q.point_at s)
  unfolding perform_all
  perform_all-replay [] s s' h =
      ap (λ (r : q.State × Outcome Raised (Unit {0})). q.point_at r.0) (sym h)
  perform_all-replay (w ∷ ws) s s' h =
      let (between, first, rest) =
        then_windows_ok (perform t q size w s) (λ x. perform_all t q size ws x) s' h in
      perform_all-replay ws between s' rest ∙ ap (replay_all ws) (perform-replay w s between first)
