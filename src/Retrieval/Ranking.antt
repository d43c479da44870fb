-- ===== src/Retrieval/Ranking.antt =====
-- `_reciprocal_rank_fusion` of backend/app/services/retrieval.py, with exact fractions for its floats.
pub mod Fractions
pub mod Scores
pub mod Agreement
use secondbrain_ai.Prelude.{
  ℕ, ◌+◌, ◌*◌, suc, Bool, true, false, List, [], ◌∷◌, ◌++◌, ltb, ◌==◌, if◌then◌else◌,
}
use secondbrain_ai.Prelude.Text.{Text, codes}

-- A score: numerator and denominator.
pub record Fraction : Type 0 where
  pub num : ℕ
  pub den : ℕ

abbrev pub nought : Fraction
nought = record { num = 0; den = 1 }

-- `1.0 / k`
abbrev pub reciprocal : ℕ → Fraction
reciprocal k = record { num = 1; den = k }

unfoldable pub plus : Fraction → Fraction → Fraction
plus f g = record { num = f.num * g.den + g.num * f.den; den = f.den * g.den }

unfoldable pub less : Fraction → Fraction → Bool
less f g = ltb (f.num * g.den) (g.num * f.den)

-- `RRF_K`
abbrev pub rrf_k : ℕ
rrf_k = 60

-- One key of the dictionaries `scores` and `sources`, which have the same keys in the same order.
pub record Fused : Type 0 where
  pub chunk_id : ℕ
  pub score : Fraction
  pub sources : List Text

abbrev pub hit_again : Text → Fraction → Fused → Fused
unfolding plus
hit_again name share f = record {
  chunk_id = f.chunk_id;
  score = plus f.score share;
  sources = f.sources ++ name ∷ [];
}

-- The body of the inner loop.
unfoldable pub add_rank : Text → Fraction → ℕ → List Fused → List Fused
unfolding plus
add_rank name share id [] =
    record { chunk_id = id; score = plus nought share; sources = name ∷ [] } ∷ []
add_rank name share id (f ∷ fs) =
    let rest = add_rank name share id fs in
    if f.chunk_id == id then hit_again name share f ∷ fs else f ∷ rest

-- The inner loop, from a rank on.
unfoldable pub add_ranking : Text → ℕ → List ℕ → List Fused → List Fused
unfolding add_rank
add_ranking name rank [] fused = fused
add_ranking name rank (id ∷ ids) fused =
    add_ranking name (suc rank) ids (add_rank name (reciprocal (rrf_k + rank)) id fused)

unfoldable pub add_rankings : List (Text × List ℕ) → List Fused → List Fused
unfolding add_ranking
add_rankings [] fused = fused
add_rankings ((name, ranking) ∷ rankings) fused =
    add_rankings rankings (add_ranking name 1 ranking fused)

-- `sorted` by the score, in reverse, which keeps the order of equal scores.
unfoldable pub insert : Fused → List Fused → List Fused
unfolding less
insert f [] = f ∷ []
insert f (g ∷ gs) = let rest = insert f gs in if less f.score g.score then g ∷ rest else f ∷ g ∷ gs

unfoldable pub sorted : List Fused → List Fused
unfolding insert
sorted [] = []
sorted (f ∷ fs) = insert f (sorted fs)

-- `_reciprocal_rank_fusion`
unfoldable pub reciprocal_rank_fusion : List (Text × List ℕ) → List Fused
unfolding sorted add_rankings
reciprocal_rank_fusion rankings = sorted (add_rankings rankings [])
