-- ===== src/Retrieval/Ranking/Scores.antt =====
-- What the fusion of backend/app/services/retrieval.py gives each chunk.
use secondbrain_ai.Prelude.{
  ℕ, ◌+◌, ◌*◌, ◌≤◌, suc, ◌≡◌, ◌≢◌, refl, sym, ap, subst, ◌∙◌, true, false, Option, none, some, List,
  [], ◌∷◌, arith, length, All, Bool-cases, ◌==◌, if◌then◌else◌, inl, inr,
}
use native.Mathlib.Nat.{mul-le-mul_right}
use secondbrain_ai.Prelude.Text.{Text}
use secondbrain_ai.Retrieval.Ranking.{
  Fraction, nought, reciprocal, plus, rrf_k, Fused, add_rank, add_ranking,
}
use secondbrain_ai.Retrieval.Ranking.Fractions.{Positive}

-- The chunk is no key.
abbrev pub Absent : ℕ → List Fused → Type 0
Absent id fused = All (λ f. f.chunk_id ≢ id) fused

unfoldable pub Unique : List Fused → Type 0
Unique [] = Unit
Unique (f ∷ fs) = Absent f.chunk_id fs × Unique fs

-- Scores with a share more for one chunk.
abbrev pub gain : ℕ → Fraction → (ℕ → Fraction) → ℕ → Fraction
gain id share scores i = if i == id then plus (scores i) share else scores i

gain_same :
    (share : Fraction) (scores : ℕ → Fraction) (i id : ℕ)
    → i ≡ id
    → gain id share scores i ≡ plus (scores i) share
gain_same share scores i id e = let test : (i == id) ≡ true = ground arith in rw test refl

gain_other :
    (share : Fraction) (scores : ℕ → Fraction) (i id : ℕ)
    → i ≢ id
    → gain id share scores i ≡ scores i
gain_other share scores i id n = let test : (i == id) ≡ false = ground arith in rw test refl

gains_apart :
    (share : Fraction) (scores : ℕ → Fraction) (id : ℕ) (fs : List Fused)
    → Absent id fs
    → All (λ f. f.score ≡ scores f.chunk_id) fs
    → All (λ f. f.score ≡ gain id share scores f.chunk_id) fs
gains_apart share scores id [] a h = tt
gains_apart share scores id (f ∷ fs) a h =
    (h.0 ∙ sym (gain_other share scores f.chunk_id id a.0), gains_apart share scores id fs a.1 h.1)

-- A dictionary that holds these scores, each chunk once, and none for a chunk that has none.
unfoldable pub Scored : (ℕ → Fraction) → List Fused → Type 0
unfolding Unique
Scored scores fused =
    All (λ f. f.score ≡ scores f.chunk_id) fused
    × Unique fused
    × ((i : ℕ) → Absent i fused → scores i ≡ nought)

positive_product : (a b : ℕ) → 1 ≤ a → 1 ≤ b → 1 ≤ a * b
positive_product a b ha hb = omega (arith, mul-le-mul_right b ha)

module _ (name : Text) (share : Fraction) where
  Absent-add_rank_back :
      (i id : ℕ) (fs : List Fused) → Absent i (add_rank name share id fs) → (id ≢ i) × Absent i fs
  unfolding add_rank
  Absent-add_rank_back i id [] h = (h.0, tt)
  Absent-add_rank_back i id (f ∷ fs) h = elim (Bool-cases (f.chunk_id == id)) [
    | inl same ↦ let parts : Absent i (f ∷ fs) = rw same at h in (ground (arith, parts.0), parts)
    | inr other ↦
        let parts : Absent i (f ∷ add_rank name share id fs) = rw other at h in
        let rest = Absent-add_rank_back i id fs parts.1 in (rest.0, (parts.0, rest.1))
  ]

  Absent-add_rank :
      (i id : ℕ) (fs : List Fused) → id ≢ i → Absent i fs → Absent i (add_rank name share id fs)
  unfolding add_rank
  Absent-add_rank i id [] n h = (n, tt)
  Absent-add_rank i id (f ∷ fs) n h = elim (Bool-cases (f.chunk_id == id)) [
    | inl same ↦ rw same h
    | inr other ↦ rw other (h.0, Absent-add_rank i id fs n h.1)
  ]

  Unique-add_rank : (id : ℕ) (fs : List Fused) → Unique fs → Unique (add_rank name share id fs)
  unfolding Unique add_rank
  Unique-add_rank id [] u = (tt, tt)
  Unique-add_rank id (f ∷ fs) u = elim (Bool-cases (f.chunk_id == id)) [
    | inl same ↦ rw same u
    | inr other ↦
        let apart : id ≢ f.chunk_id = ground arith in
        rw other (Absent-add_rank f.chunk_id id fs apart u.0, Unique-add_rank id fs u.1)
  ]

  scores-add_rank :
      (scores : ℕ → Fraction) (id : ℕ) (fs : List Fused)
      → All (λ f. f.score ≡ scores f.chunk_id) fs
      → Unique fs
      → (Absent id fs → scores id ≡ nought)
      → All (λ f. f.score ≡ gain id share scores f.chunk_id) (add_rank name share id fs)
  unfolding Unique add_rank
  scores-add_rank scores id [] h u new =
      (ap (λ x. plus x share) (sym (new tt)) ∙ sym (gain_same share scores id id refl), tt)
  scores-add_rank scores id (f ∷ fs) h u new = elim (Bool-cases (f.chunk_id == id)) [
    | inl same ↦
        let this : f.chunk_id ≡ id = ground arith in
        let alone : Absent id fs = subst (λ x. Absent x fs) this u.0 in
        rw same (
          ap (λ x. plus x share) h.0 ∙ sym (gain_same share scores f.chunk_id id this),
          gains_apart share scores id fs alone h.1,
        )
    | inr other ↦
        let apart : f.chunk_id ≢ id = ground arith in
        rw other (
          h.0 ∙ sym (gain_other share scores f.chunk_id id apart),
          scores-add_rank scores id fs h.1 u.1 (λ absent. new (apart, absent)),
        )
  ]

  Positive-add_rank :
      (id : ℕ) (fs : List Fused)
      → 1 ≤ share.den
      → All Positive fs
      → All Positive (add_rank name share id fs)
  unfolding add_rank plus
  Positive-add_rank id [] p h = (omega arith, tt)
  Positive-add_rank id (f ∷ fs) p h = elim (Bool-cases (f.chunk_id == id)) [
    | inl same ↦ rw same (positive_product f.score.den share.den h.0 p, h.1)
    | inr other ↦ rw other (h.0, Positive-add_rank id fs p h.1)
  ]

  Scored-add_rank :
      (scores : ℕ → Fraction) (id : ℕ) (fs : List Fused)
      → Scored scores fs
      → Scored (gain id share scores) (add_rank name share id fs)
  unfolding Scored
  Scored-add_rank scores id fs (h, u, new) = (
    scores-add_rank scores id fs h u (new id),
    Unique-add_rank id fs u,
    λ i absent.
        let back = Absent-add_rank_back i id fs absent in
        gain_other share scores i id (λ e. back.0 (sym e)) ∙ new i back.1,
  )

-- The scores after a ranking.
unfoldable pub gains : ℕ → List ℕ → (ℕ → Fraction) → ℕ → Fraction
gains rank [] scores = scores
gains rank (id ∷ ids) scores = gains (suc rank) ids (gain id (reciprocal (rrf_k + rank)) scores)

pub Scored-add_ranking :
    (name : Text) (rank : ℕ) (ids : List ℕ) (scores : ℕ → Fraction) (fs : List Fused)
    → Scored scores fs
    → Scored (gains rank ids scores) (add_ranking name rank ids fs)
unfolding gains add_ranking
Scored-add_ranking name rank [] scores fs h = h
Scored-add_ranking name rank (id ∷ ids) scores fs h =
    let share = reciprocal (rrf_k + rank) in
    Scored-add_ranking name (suc rank) ids (gain id share scores) (add_rank name share id fs)
      (Scored-add_rank name share scores id fs h)

pub Positive-add_ranking :
    (name : Text) (rank : ℕ) (ids : List ℕ) (fs : List Fused)
    → All Positive fs
    → All Positive (add_ranking name rank ids fs)
unfolding add_ranking
Positive-add_ranking name rank [] fs h = h
Positive-add_ranking name rank (id ∷ ids) fs h =
    let share = reciprocal (rrf_k + rank) in
    Positive-add_ranking name (suc rank) ids (add_rank name share id fs)
      (Positive-add_rank name share id fs (omega arith) h)

-- The rank of a chunk in a ranking, from a rank on.
unfoldable pub rank_of : ℕ → ℕ → List ℕ → Option ℕ
rank_of i rank [] = none
rank_of i rank (id ∷ ids) =
    let later = rank_of i (suc rank) ids in if i == id then some rank else later

-- No chunk stands twice in the ranking.
unfoldable pub Distinct : List ℕ → Type 0
Distinct [] = Unit
Distinct (id ∷ ids) = All (λ j. id ≢ j) ids × Distinct ids

abbrev pub with_share : Fraction → Option ℕ → Fraction
with_share f none = f
with_share f (some rank) = plus f (reciprocal (rrf_k + rank))

gains_absent :
    (i rank : ℕ) (ids : List ℕ) (scores : ℕ → Fraction)
    → All (λ j. i ≢ j) ids
    → gains rank ids scores i ≡ scores i
unfolding gains
gains_absent i rank [] scores h = refl
gains_absent i rank (id ∷ ids) scores h =
    let share = reciprocal (rrf_k + rank) in
    gains_absent i (suc rank) ids (gain id share scores) h.1 ∙ gain_other share scores i id h.0

-- Each ranking adds the share of the chunk's rank.
pub gains_lem :
    (i rank : ℕ) (ids : List ℕ) (scores : ℕ → Fraction)
    → Distinct ids
    → gains rank ids scores i ≡ with_share (scores i) (rank_of i rank ids)
unfolding gains rank_of Distinct
gains_lem i rank [] scores d = refl
gains_lem i rank (id ∷ ids) scores d =
    let share = reciprocal (rrf_k + rank) in
    elim (Bool-cases (i == id)) [
      | inl same ↦
          let e : i ≡ id = ground arith in
          rw same (
            gains_absent i (suc rank) ids (gain id share scores)
              (subst (λ x. All (λ j. x ≢ j) ids) (sym e) d.0)
            ∙ gain_same share scores i id e)
      | inr other ↦
          let n : i ≢ id = ground arith in
          rw other (
            gains_lem i (suc rank) ids (gain id share scores) d.1
            ∙ ap (λ x. with_share x (rank_of i (suc rank) ids)) (gain_other share scores i id n))
    ]

pub rank_of_bounds :
    (i rank r : ℕ) (ids : List ℕ)
    → rank_of i rank ids ≡ some r
    → (rank ≤ r) × (r + 1 ≤ rank + length ids)
unfolding rank_of
rank_of_bounds i rank r [] h = cc
rank_of_bounds i rank r (id ∷ ids) h = ground (arith, rank_of_bounds i (suc rank) r ids)
