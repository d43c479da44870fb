-- ===== src/Retrieval/Ranking/Fractions.antt =====
-- The order of the scores.
use secondbrain_ai.Prelude.{
  ℕ, ◌+◌, ◌*◌, ◌≤◌, ◌<◌, ◌≡◌, true, false, arith, Bool-cases, inl, inr, List, [], ◌∷◌, All,
  All-mono,
}
use native.Mathlib.Nat.{mul-le-mul_right, le_of_mul-le-mul_right}
use secondbrain_ai.Retrieval.Ranking.{
  Fraction, nought, reciprocal, plus, less, rrf_k, Fused, insert, sorted,
}

shares_add_up : (x y z : ℕ) → x ≤ 120 → y ≤ 120 → 61 ≤ z → 1 ≤ x → x * y < (x + y) * z
shares_add_up x y z hx hy hz h =
    omega (arith, mul-le-mul_right y hx, mul-le-mul_right x hy, mul-le-mul_right (x + y) hz)

-- Two shares of the first sixty ranks are more than any one share.
pub two_shares :
    (r s t : ℕ)
    → r ≤ 60
    → s ≤ 60
    → 1 ≤ t
    → less
        (plus nought (reciprocal (rrf_k + t)))
        (plus (plus nought (reciprocal (rrf_k + r))) (reciprocal (rrf_k + s)))
      ≡ true
unfolding less plus
two_shares r s t hr hs ht = ground (arith, shares_add_up (60 + r) (60 + s) (60 + t))

pub one_share :
    (r s : ℕ)
    → less nought (plus (plus nought (reciprocal (rrf_k + r))) (reciprocal (rrf_k + s))) ≡ true
unfolding less plus
one_share r s = ground arith

-- The first score is the other one or a higher one.
unfoldable pub Ge : Fraction → Fraction → Type 0
Ge f g = g.num * f.den ≤ f.num * g.den

less→Ge : (f g : Fraction) → less f g ≡ true → Ge g f
unfolding less Ge
less→Ge f g h = ground arith

not_less→Ge : (f g : Fraction) → less f g ≡ false → Ge f g
unfolding less Ge
not_less→Ge f g h = ground arith

pub Ge→not_less : (f g : Fraction) → Ge f g → less f g ≡ false
unfolding less Ge
Ge→not_less f g h = ground arith

Ge_trans : (f g h : Fraction) → 1 ≤ g.den → Ge f g → Ge g h → Ge f h
unfolding Ge
Ge_trans f g h positive fg gh =
    le_of_mul-le-mul_right {k = g.den}
      (omega (arith, mul-le-mul_right h.den fg, mul-le-mul_right f.den gh)) positive

-- Each score is at least those behind it.
unfoldable pub Descending : List Fused → Type 0
unfolding Ge
Descending [] = Unit
Descending (f ∷ fs) = All (λ g. Ge f.score g.score) fs × Descending fs

abbrev pub Positive : Fused → Type 0
Positive f = 1 ≤ f.score.den

All-insert {ℓ} :
    (P : Fused → Type ℓ) (f : Fused) (gs : List Fused) → P f → All P gs → All P (insert f gs)
unfolding insert
All-insert P f [] p h = (p, tt)
All-insert P f (g ∷ gs) p h = elim (Bool-cases (less f.score g.score)) [
  | inl lower ↦ rw lower (h.0, All-insert P f gs p h.1)
  | inr higher ↦ rw higher (p, h)
]

insert-Descending :
    (f : Fused) (gs : List Fused)
    → Positive f
    → All Positive gs
    → Descending gs
    → Descending (insert f gs)
unfolding Descending insert
insert-Descending f [] p ps d = (tt, tt)
insert-Descending f (g ∷ gs) p ps d = elim (Bool-cases (less f.score g.score)) [
  | inl lower ↦ rw lower (
    All-insert (λ h. Ge g.score h.score) f gs (less→Ge f.score g.score lower) d.0,
    insert-Descending f gs p ps.1 d.1,
  )
  | inr higher ↦
      let top = not_less→Ge f.score g.score higher in
      rw higher ((top, All-mono _ _ gs (λ h e. Ge_trans f.score g.score h.score ps.0 top e) d.0), d)
]

pub All-sorted {ℓ} : (P : Fused → Type ℓ) (fs : List Fused) → All P fs → All P (sorted fs)
unfolding sorted
All-sorted P [] h = tt
All-sorted P (f ∷ fs) h = All-insert P f (sorted fs) h.0 (All-sorted P fs h.1)

pub sorted-Descending : (fs : List Fused) → All Positive fs → Descending (sorted fs)
unfolding sorted Descending
sorted-Descending [] h = tt
sorted-Descending (f ∷ fs) h =
    insert-Descending f (sorted fs) h.0 (All-sorted Positive fs h.1) (sorted-Descending fs h.1)

All-insert_back {ℓ} :
    (P : Fused → Type ℓ) (f : Fused) (gs : List Fused) → All P (insert f gs) → P f × All P gs
unfolding insert
All-insert_back P f [] h = h
All-insert_back P f (g ∷ gs) h = elim (Bool-cases (less f.score g.score)) [
  | inl lower ↦
      let both : P g × All P (insert f gs) = rw lower at h in
      let rest = All-insert_back P f gs both.1 in (rest.0, (both.0, rest.1))
  | inr higher ↦ rw higher at h
]

pub All-sorted_back {ℓ} : (P : Fused → Type ℓ) (fs : List Fused) → All P (sorted fs) → All P fs
unfolding sorted
All-sorted_back P [] h = tt
All-sorted_back P (f ∷ fs) h =
    let both = All-insert_back P f (sorted fs) h in (both.0, All-sorted_back P fs both.1)
