-- ===== src/VectorStore/Windows.antt =====
-- The batches of `upsert`, with the calls that are made again.
use secondbrain_ai.Prelude.{
  ℕ, zero, suc, ◌<◌, ◌≤◌, ◌≡◌, refl, sym, subst, ap, ◌∙◌, ◌⊎◌, inl, inr, List, [], ◌∷◌, ◌++◌, arith,
  take, drop, length, take-append-drop, length-drop,
}
use secondbrain_ai.Prelude.Outcome.{Outcome, ok, raised}
use secondbrain_ai.Indexing.Vectors.{VectorRecord}
use secondbrain_ai.Retry.{Raised, Call, Tenacity, is_exception}
use secondbrain_ai.Retry.Attempts.{after_calls, Failed, Call-cases, with_retry-EndsBy}
use secondbrain_ai.VectorStore.{
  overlay, QdrantClient, upsert_window, then_windows, upsert_windows, upsert_records,
}
use secondbrain_ai.VectorStore.Index.{
  overlay-append, overlay_again, Partly, Partly-trans, Partly-append, Partly-more,
}
use mathlib.Core.Path.{fun_ext}

module _ (t : Tenacity) (q : QdrantClient) where
  -- A write of these points that returned has overlaid them; one that raised has written none or some.
  abbrev pub Upserted : List VectorRecord → q.State → q.State × Outcome Raised (Unit {0}) → Type 0
  Upserted points s r =
      ((r.1 ≡ ok tt) × (q.point_at r.0 ≡ overlay points (q.point_at s)))
      ⊎ ((e : Raised) × (r.1 ≡ raised e)
          × ((i : ℕ) → Partly points (q.point_at s) (q.point_at r.0) i))

  write_points-Upserted :
      (points : List VectorRecord) (s : q.State) → Upserted points s (q.write_points points s)
  write_points-Upserted points s = elim (Call-cases (q.write_points points s)) [
    | inl (s', u, e) ↦
        subst (λ r. Upserted points s r) (sym e) (inl (refl, q.written points s s' e))
    | inr (s', x, e) ↦
        subst (λ r. Upserted points s r) (sym e) (inr (x, refl, q.partly_written points s s' x e))
  ]

  Failed-Partly :
      (points : List VectorRecord) (k : ℕ) (s : q.State)
      → Failed is_exception k (q.write_points points) s
      → (i : ℕ)
      → Partly points (q.point_at s) (q.point_at (after_calls k (q.write_points points) s)) i
  Failed-Partly points zero s h i = inl refl
  Failed-Partly points (suc k) s ((x, e, retried), h) i =
      let later = Failed-Partly points k (q.write_points points s).0 h i in
      let now = left (write_points-Upserted points s) in
      Partly-trans points (q.point_at s) (q.point_at (q.write_points points s).0)
        (q.point_at (after_calls k (q.write_points points) (q.write_points points s).0)) i now later
    where
      left :
          Upserted points s (q.write_points points s)
          → Partly points (q.point_at s) (q.point_at (q.write_points points s).0) i
      left (inl (returned, whole)) = cc
      left (inr (y, raises, partly)) = partly i

  -- What failed attempts have left is hidden by the attempt that succeeds.
  after_failures-Upserted :
      (points : List VectorRecord) (k : ℕ) (s : q.State)
      → Failed is_exception k (q.write_points points) s
      → Upserted points s (q.write_points points (after_calls k (q.write_points points) s))
  after_failures-Upserted points k s h =
      last (write_points-Upserted points (after_calls k (q.write_points points) s))
    where
      last :
          Upserted points
            (after_calls k (q.write_points points) s)
            (q.write_points points (after_calls k (q.write_points points) s))
          → Upserted points s (q.write_points points (after_calls k (q.write_points points) s))
      last (inl (returned, whole)) = inl (
        returned,
        whole
            ∙ fun_ext (λ i.
              overlay_again points (q.point_at s)
                (q.point_at (after_calls k (q.write_points points) s)) i
                (Failed-Partly points k s h i)),
      )
      last (inr (x, raises, partly)) = inr (
        x,
        raises,
        λ i.
            Partly-trans points (q.point_at s)
              (q.point_at (after_calls k (q.write_points points) s))
              (q.point_at (q.write_points points (after_calls k (q.write_points points) s)).0) i
              (Failed-Partly points k s h i) (partly i),
      )

  upsert_window-Upserted :
      (points : List VectorRecord) (s : q.State) → Upserted points s (upsert_window t q points s)
  unfolding upsert_window
  upsert_window-Upserted points s =
      let (k, few, failed, result, done) =
        with_retry-EndsBy t 2 is_exception (q.write_points points) s in
      subst (λ r. Upserted points s r) (sym result) (after_failures-Upserted points k s failed)

  then_windows-Upserted :
      (xs ys : List VectorRecord) (s : q.State) (r : q.State × Outcome Raised (Unit {0}))
      (next : Call q.State (Unit {0}))
      → Upserted xs s r
      → ((x : q.State) → Upserted ys x (next x))
      → Upserted (xs ++ ys) s (then_windows t q r next)
  then_windows-Upserted xs ys s (x, raised e) next (inl (returned, whole)) later = cc
  then_windows-Upserted xs ys s (x, raised e) next (inr (e', raises, partly)) later =
      inr (e, refl, λ i. Partly-more xs ys (q.point_at s) (q.point_at x) i (partly i))
  then_windows-Upserted xs ys s (x, ok u) next (inr (e', raises, partly)) later = cc
  then_windows-Upserted xs ys s (x, ok u) next (inl (returned, whole)) later = both (later x)
    where
      both : Upserted ys x (next x) → Upserted (xs ++ ys) s (next x)
      both (inl (done, index)) =
          inl (done, index ∙ ap (overlay ys) whole ∙ sym (overlay-append xs ys (q.point_at s)))
      both (inr (e', raises, partly)) = inr (
        e',
        raises,
        λ i.
            Partly-append xs ys (q.point_at s) (q.point_at (next x).0) i
              (subst (λ m. Partly ys m (q.point_at (next x).0) i) whole (partly i)),
      )

  upsert_windows-Upserted :
      (fuel size : ℕ) (records : List VectorRecord) (s : q.State)
      → 0 < size
      → length records ≤ fuel
      → Upserted records s (upsert_windows t q fuel size records s)
  unfolding upsert_windows
  upsert_windows-Upserted zero size [] s some_size enough = inl (refl, refl)
  upsert_windows-Upserted zero size (r ∷ rs) s some_size enough = absurd (omega arith)
  upsert_windows-Upserted (suc fuel) size [] s some_size enough = inl (refl, refl)
  upsert_windows-Upserted (suc fuel) size (r ∷ rs) s some_size enough =
      let first = take size (r ∷ rs) in
      let rest = drop size (r ∷ rs) in
      subst (λ x. Upserted x s (upsert_windows t q (suc fuel) size (r ∷ rs) s))
        (take-append-drop size (r ∷ rs))
        (then_windows-Upserted first rest s (upsert_window t q first s)
          (upsert_windows t q fuel size rest) (upsert_window-Upserted first s)
          (λ x.
            upsert_windows-Upserted fuel size rest x some_size
              (omega (arith, length-drop size (r ∷ rs)))))

  -- An upsert in batches, each tried up to three times, that returns leaves the store with the records
  -- overlaid in their order, whatever the attempts before had written; and one that raises has written
  -- nothing but some of the records: under each identifier is what was there, or a record of it.
  pub upsert_records-Upserted :
      (size : ℕ) (records : List VectorRecord) (s : q.State)
      → 0 < size
      → Upserted records s (upsert_records t q size records s)
  unfolding upsert_records
  upsert_records-Upserted size records s some_size =
      upsert_windows-Upserted (length records) size records s some_size (omega arith)
