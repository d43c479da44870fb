-- ===== src/Retrieval/Ranking/Agreement.antt =====
-- The chunks that both retrievers find, in the fusion of backend/app/services/retrieval.py.
use secondbrain_ai.Prelude.{
  ℕ, ◌+◌, ◌≤◌, ◌≡◌, refl, sym, ap, subst, ◌∙◌, ◌⊎◌, true, Option, none, some, List, [], ◌∷◌, arith,
  length, All, All-mono, inl, inr,
}
use secondbrain_ai.Prelude.Text.{Text, codes}
use secondbrain_ai.Retrieval.Ranking.{
  Fraction, nought, reciprocal, plus, less, rrf_k, Fused, add_ranking, add_rankings, sorted,
  reciprocal_rank_fusion,
}
use secondbrain_ai.Retrieval.Ranking.Fractions.{
  two_shares, one_share, Ge, Ge→not_less, Descending, Positive, All-sorted, All-sorted_back,
  sorted-Descending,
}
use secondbrain_ai.Retrieval.Ranking.Scores.{
  Absent, Scored, Unique, gains, Scored-add_ranking, Positive-add_ranking, rank_of, Distinct,
  with_share, gains_lem, rank_of_bounds,
}

-- The two rankings that `search` fuses.
abbrev pub rankings_of : List ℕ → List ℕ → List (Text × List ℕ)
rankings_of dense keyword = (codes "semantic", dense) ∷ (codes "keyword", keyword) ∷ []

-- No entry of the first chunk stands behind one of the second.
unfoldable pub NoneBehind : ℕ → ℕ → List Fused → Type 0
NoneBehind a b [] = Unit
NoneBehind a b (f ∷ fs) = (f.chunk_id ≡ b → Absent a fs) × NoneBehind a b fs

no_nought : Scored (λ i. nought) []
unfolding Scored Unique
no_nought = (tt, tt, λ i absent. refl)

module _ (dense keyword : List ℕ) (once_dense : Distinct dense)
    (once_keyword : Distinct keyword) where
  fused_score : ℕ → Fraction
  fused_score i = with_share (with_share nought (rank_of i 1 dense)) (rank_of i 1 keyword)

  fused : List Fused
  fused = add_rankings (rankings_of dense keyword) []

  after_dense : ℕ → Fraction
  after_dense = gains 1 dense (λ i. nought)

  fused-Scored : Scored (gains 1 keyword after_dense) fused
  unfolding fused add_rankings after_dense
  fused-Scored =
      Scored-add_ranking (codes "keyword") 1 keyword after_dense
        (add_ranking (codes "semantic") 1 dense [])
        (Scored-add_ranking (codes "semantic") 1 dense (λ i. nought) [] no_nought)

  fused_score_lem : (i : ℕ) → gains 1 keyword after_dense i ≡ fused_score i
  unfolding fused_score after_dense
  fused_score_lem i =
      gains_lem i 1 keyword after_dense once_keyword
      ∙ ap (λ x. with_share x (rank_of i 1 keyword)) (gains_lem i 1 dense (λ j. nought) once_dense)

  fused-Positive : All Positive fused
  unfolding fused add_rankings
  fused-Positive =
      Positive-add_ranking (codes "keyword") 1 keyword (add_ranking (codes "semantic") 1 dense [])
        (Positive-add_ranking (codes "semantic") 1 dense [] tt)

  -- The fusion ranks by score, and each score is the sum of the shares of the chunk's ranks.
  ranked_scores : All (λ f. f.score ≡ fused_score f.chunk_id) (sorted fused)
  unfolding Scored
  ranked_scores =
      All-sorted _ fused (All-mono _ _ fused (λ f e. e ∙ fused_score_lem f.chunk_id) fused-Scored.0)

  ranked-Descending : Descending (sorted fused)
  ranked-Descending = sorted-Descending fused fused-Positive

  ranked_present : (i : ℕ) → less nought (fused_score i) ≡ true → ¬ Absent i (sorted fused)
  unfolding Scored less
  ranked_present i h absent =
      let zero_score =
        sym (fused_score_lem i) ∙ fused-Scored.2 i (All-sorted_back _ fused absent) in
      let nothing : less nought nought ≡ true = subst (λ x. less nought x ≡ true) zero_score h in
      ground arith

  behind_lower :
      (a b : ℕ) (top : Fraction)
      → less (fused_score b) (fused_score a) ≡ true
      → top ≡ fused_score b
      → (fs : List Fused) → All (λ f. f.score ≡ fused_score f.chunk_id) fs
      → All (λ g. Ge top g.score) fs
      → Absent a fs
  behind_lower a b top lower e [] s d = tt
  behind_lower a b top lower e (g ∷ gs) s d = (
    (λ is_a.
        let score_a : g.score ≡ fused_score a = s.0 ∙ ap fused_score is_a in
        let above : Ge (fused_score b) (fused_score a) =
          subst (λ x. Ge x (fused_score a)) e (subst (λ x. Ge top x) score_a d.0) in
        let higher = Ge→not_less (fused_score b) (fused_score a) above in cc),
    behind_lower a b top lower e gs s.1 d.1,
  )

  none_behind :
      (a b : ℕ)
      → less (fused_score b) (fused_score a) ≡ true
      → (fs : List Fused) → All (λ f. f.score ≡ fused_score f.chunk_id) fs
      → Descending fs
      → NoneBehind a b fs
  unfolding NoneBehind Descending
  none_behind a b lower [] s d = tt
  none_behind a b lower (f ∷ fs) s d = (
    λ is_b. behind_lower a b f.score lower (s.0 ∙ ap fused_score is_b) fs s.1 d.0,
    none_behind a b lower fs s.1 d.1,
  )

  module _ (short_dense : length dense ≤ 60) (short_keyword : length keyword ≤ 60) (a b r s : ℕ)
      (a_dense : rank_of a 1 dense ≡ some r) (a_keyword : rank_of a 1 keyword ≡ some s) where
    agreed_score :
        fused_score a ≡ plus (plus nought (reciprocal (rrf_k + r))) (reciprocal (rrf_k + s))
    unfolding fused_score
    agreed_score = rw (a_dense, a_keyword) refl

    high_r : r ≤ 60
    high_r = omega (arith, rank_of_bounds a 1 r dense a_dense)

    high_s : s ≤ 60
    high_s = omega (arith, rank_of_bounds a 1 s keyword a_keyword)

    single_lower :
        (x y : Option ℕ)
        → rank_of b 1 dense ≡ x
        → rank_of b 1 keyword ≡ y
        → (x ≡ none) ⊎ (y ≡ none)
        → less (fused_score b) (fused_score a) ≡ true
    unfolding fused_score
    single_lower none none ex ey h = rw (ex, ey, a_dense, a_keyword) (one_share r s)
    single_lower (some t) none ex ey h =
        rw (ex, ey, a_dense, a_keyword)
          (two_shares r s t high_r high_s (rank_of_bounds b 1 t dense ex).0)
    single_lower none (some t) ex ey h =
        rw (ex, ey, a_dense, a_keyword)
          (two_shares r s t high_r high_s (rank_of_bounds b 1 t keyword ey).0)
    single_lower (some t) (some u) ex ey (inl e) = cc
    single_lower (some t) (some u) ex ey (inr e) = cc

-- If the rankings hold no chunk twice and at most sixty chunks each, a chunk that both hold is in the
-- fusion and stands before each chunk that only one of them holds.
pub agreement_first :
    (dense keyword : List ℕ)
    → Distinct dense
    → Distinct keyword
    → length dense ≤ 60
    → length keyword ≤ 60
    → (a b r s : ℕ) → rank_of a 1 dense ≡ some r
    → rank_of a 1 keyword ≡ some s
    → (rank_of b 1 dense ≡ none) ⊎ (rank_of b 1 keyword ≡ none)
    → (¬ Absent a (reciprocal_rank_fusion (rankings_of dense keyword)))
      × NoneBehind a b (reciprocal_rank_fusion (rankings_of dense keyword))
unfolding reciprocal_rank_fusion fused
agreement_first dense keyword od ok sd sk a b r s ad ak single =
    let lower = single_lower dense keyword od ok sd sk a b r s ad ak _ _ refl refl single in
    (
      ranked_present dense keyword od ok a (
          subst (λ x. less nought x ≡ true)
            (sym (agreed_score dense keyword od ok sd sk a b r s ad ak)) (one_share r s)),
      none_behind dense keyword od ok a b lower _ (ranked_scores dense keyword od ok)
          (ranked-Descending dense keyword od ok),
    )
