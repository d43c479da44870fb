-- ===== src/Chunking/Oversized/Bounds.antt =====
-- The size of the pieces, and when the recursion ends at once.
use secondbrain_ai.Prelude.{
  ℕ, zero, suc, ◌+◌, ◌≡◌, refl, true, Option, none, some, List, [], ◌∷◌, arith, length, leb, leb→le,
  all, take_last, length-drop, length-append, All, All-append, All-mono, Option-cases, Bool-cases,
  ◌<◌, ◌∙◌, append-nil, if◌then◌else◌, subst, ◌-◌, inl, inr,
}
use secondbrain_ai.Prelude.Text.{Text, nonempty, contains, strip}
use secondbrain_ai.Chunking.Separators.{
  separators, split_keeping_separator, find_separator, split_keeping_separator_roundtrip,
}
use secondbrain_ai.Chunking.Packing.{Fits, Lost, greedy_pack, greedy_pack-Fits, greedy_pack-Lost}
use secondbrain_ai.Chunking.Oversized.{
  extend, refine, split_by, hard_cut, split_at_best_separator, with_tails, overlapped,
  split_oversized,
}
use secondbrain_ai.Chunking.Oversized.HardCut.{hard_cut_from-Fits, hard_cut_lem}

all→Fits :
    (size : ℕ) (parts : List Text)
    → all (λ part. leb (length part) size) parts ≡ true
    → All (Fits size) parts
all→Fits size [] h = tt
all→Fits size (p ∷ parts) h = ground (arith, all→Fits size parts)

-- The pieces of a result, if there is one.
abbrev pub Pieces {ℓ} : (Text → Type ℓ) → Option (List Text) → Type ℓ
Pieces P none = Unit
Pieces P (some pieces) = All P pieces

extend-Pieces {ℓ} :
    (P : Text → Type ℓ) (o r : Option (List Text)) → Pieces P o → Pieces P r → Pieces P (extend o r)
extend-Pieces P none r ho hr = tt
extend-Pieces P (some xs) none ho hr = tt
extend-Pieces P (some xs) (some ys) ho hr = All-append P xs ys ho hr

module _ (size : ℕ) (again : Text → Option (List Text))
    (ih : (t : Text) → Pieces (Fits size) (again t)) where
  part-Fits :
      (p : Text) → Pieces (Fits size) (if leb (length p) size then some (p ∷ []) else again p)
  part-Fits p = elim (Bool-cases (leb (length p) size)) [
    | inl short ↦ rw short (leb→le _ _ short, tt)
    | inr long ↦ rw long (ih p)
  ]

  refine-Fits : (parts : List Text) → Pieces (Fits size) (refine again size parts)
  unfolding refine
  refine-Fits [] = tt
  refine-Fits (p ∷ parts) = extend-Pieces (Fits size) _ _ (part-Fits p) (refine-Fits parts)

  split_by-Fits : (t sep : Text) → Pieces (Fits size) (split_by again size t sep)
  unfolding split_by
  split_by-Fits t sep =
      elim (Bool-cases (all (λ part. leb (length part) size) (split_keeping_separator t sep))) [
        | inl fit ↦ rw (fit, split_by) (greedy_pack-Fits size _ (all→Fits size _ fit))
        | inr not_all ↦ rw (not_all, split_by) (refine-Fits _)
      ]

split_at_best_separator-Fits :
    (fuel size : ℕ) (t : Text) → Pieces (Fits size) (split_at_best_separator fuel size t)
unfolding split_at_best_separator
split_at_best_separator-Fits zero size t = tt
split_at_best_separator-Fits (suc fuel) size t = elim (Option-cases (find_separator separators t)) [
  | inl absent ↦ rw (absent, split_at_best_separator) (hard_cut_from-Fits (length t) size t)
  | inr (sep, found) ↦
      rw (found, split_at_best_separator)
        (split_by-Fits size (split_at_best_separator fuel size)
          (split_at_best_separator-Fits fuel size) t sep)
]

with_tails-Fits :
    (size overlap : ℕ) (previous : Text) (pieces : List Text)
    → All (Fits size) pieces
    → All (Fits (size + overlap)) (with_tails overlap previous pieces)
with_tails-Fits size overlap previous [] h = tt
with_tails-Fits size overlap previous (p ∷ pieces) h = (
  omega (
    arith,
    length-append (take_last overlap previous) p,
    length-drop (length previous - overlap) previous,
    h.0,
  ),
  with_tails-Fits size overlap p pieces h.1,
)

overlapped-Fits :
    (size overlap : ℕ) (pieces : List Text)
    → All (Fits size) pieces
    → All (Fits (size + overlap)) (overlapped overlap pieces)
unfolding overlapped
overlapped-Fits size overlap [] h = tt
overlapped-Fits size zero (p ∷ pieces) h =
    All-mono (Fits size) (Fits (size + 0)) (p ∷ pieces) (λ t f. omega arith) h
overlapped-Fits size (suc k) (p ∷ pieces) h =
    (omega (arith, h.0), with_tails-Fits size (suc k) p pieces h.1)

-- Whenever an oversized passage is split, no piece is longer than the chunk size and the overlap
-- together.
pub split_oversized-Fits :
    (fuel size overlap : ℕ) (t : Text)
    → Pieces (Fits (size + overlap)) (split_oversized fuel size overlap t)
unfolding split_oversized
split_oversized-Fits fuel size overlap t =
    elim (Option-cases (split_at_best_separator fuel size t)) [
      | inl e ↦ rw (e, split_oversized) tt
      | inr (pieces, e) ↦
          rw (e, split_oversized)
            (overlapped-Fits size overlap pieces
              (subst (Pieces (Fits size)) e (split_at_best_separator-Fits fuel size t)))
    ]

-- The parts at the separator that is chosen, if there is one, fit.
abbrev pub PartsFit : ℕ → Text → Option Text → Type 0
PartsFit size t none = Unit
PartsFit size t (some sep) = All (Fits size) (split_keeping_separator t sep)

Fits→all :
    (size : ℕ) (parts : List Text)
    → All (Fits size) parts
    → all (λ part. leb (length part) size) parts ≡ true
Fits→all size [] h = refl
Fits→all size (p ∷ parts) h = ground (arith, Fits→all size parts h.1)

found_nonempty :
    (seps : List Text) (t sep : Text)
    → All (λ s. nonempty s ≡ true) seps
    → find_separator seps t ≡ some sep
    → nonempty sep ≡ true
unfolding find_separator
found_nonempty [] t sep h e = cc
found_nonempty (s ∷ seps) t sep h e = elim (Bool-cases (contains s t)) [
  | inl hit ↦ let same : some s ≡ some sep = rw hit at e in ground (arith, same, h.0)
  | inr miss ↦ found_nonempty seps t sep h.1 (rw miss at e)
]

separators-nonempty : All (λ s. nonempty s ≡ true) separators
separators-nonempty = (refl, (refl, (refl, (refl, (refl, (refl, (refl, (refl, tt))))))))

-- A text whose parts at its first separator fit, or that has no separator, is split at the first
-- attempt, into pieces that fit and that together are the text, up to whitespace at its end.
pub split_at_best_separator_total :
    (fuel size : ℕ) (t : Text)
    → 0 < size
    → PartsFit size t (find_separator separators t)
    → (pieces : List Text) × (split_at_best_separator (suc fuel) size t ≡ some pieces)
      × All (Fits size) pieces
      × Lost pieces t
unfolding split_at_best_separator strip
split_at_best_separator_total fuel size t h fit =
    elim (Option-cases (find_separator separators t)) [
      | inl absent ↦ (
        hard_cut size t,
        rw (absent, split_at_best_separator),
        (hard_cut_lem size t h).1,
        ([], append-nil _ ∙ (hard_cut_lem size t h).0, refl),
      )
      | inr (sep, found) ↦
          let parts = split_keeping_separator t sep in
          let short : All (Fits size) parts = subst (PartsFit size t) found fit in
          (
            greedy_pack parts size,
            rw (found, split_at_best_separator) (unfold split_by in rw (Fits→all size parts short)),
            greedy_pack-Fits size parts short,
            rw
                (split_keeping_separator_roundtrip t sep
                  (found_nonempty separators t sep separators-nonempty found))
                at (greedy_pack-Lost size parts),
          )
    ]

pub split_oversized_total :
    (fuel size overlap : ℕ) (t : Text)
    → 0 < size
    → PartsFit size t (find_separator separators t)
    → (pieces : List Text) × (split_oversized (suc fuel) size overlap t ≡ some pieces)
unfolding split_oversized
split_oversized_total fuel size overlap t positive h =
    let (pieces, e, _, _) = split_at_best_separator_total fuel size t positive h in
    (overlapped overlap pieces, rw (e, split_oversized))
