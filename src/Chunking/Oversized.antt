-- ===== src/Chunking/Oversized.antt =====
-- `RecursiveChunker._split_at_best_separator` and `_split_oversized`. The fuel is the depth of
-- recursion that the interpreter allows, and `none` is its `RecursionError`.
pub mod HardCut
pub mod Bounds
pub mod Divergence
use secondbrain_ai.Prelude.{
  ℕ, zero, suc, ◌-◌, Bool, true, false, Option, none, some, List, [], ◌∷◌, ◌++◌, length, take, drop,
  take_last, leb, ltb, all, ◌||◌, if◌then◌else◌,
}
use secondbrain_ai.Prelude.Text.{Text, nonempty}
use secondbrain_ai.Chunking.Separators.{separators, split_keeping_separator, find_separator}
use secondbrain_ai.Chunking.Packing.{greedy_pack}

-- `text[index : index + size]` for each index of `range(0, len(text), size)`: the first argument
-- bounds the rounds, and the length of the text is enough of them.
pub hard_cut_from : ℕ → ℕ → Text → List Text
hard_cut_from zero size t = []
hard_cut_from (suc n) size [] = []
hard_cut_from (suc n) size (c ∷ t) = take size (c ∷ t) ∷ hard_cut_from n size (drop size (c ∷ t))

pub hard_cut : ℕ → Text → List Text
unfolding hard_cut_from
hard_cut size t = hard_cut_from (length t) size t

-- `result.extend(…)` with what is collected from the later parts.
abbrev pub extend : Option (List Text) → Option (List Text) → Option (List Text)
extend none others = none
extend (some more) none = none
extend (some more) (some rest) = some (more ++ rest)

-- The loop over the packed parts, which recurses on those that are still too long.
refine : (Text → Option (List Text)) → ℕ → List Text → Option (List Text)
refine again size [] = some []
refine again size (part ∷ parts) =
    extend (if leb (length part) size then some (part ∷ []) else again part)
      (refine again size parts)

-- The body of the loop over `_SEPARATORS` at the first one that the text contains.
split_by : (Text → Option (List Text)) → ℕ → Text → Text → Option (List Text)
unfolding refine
split_by again size text sep =
    let parts = split_keeping_separator text sep in
    if all (λ part. leb (length part) size) parts
    then some (greedy_pack parts size)
    else refine again size (greedy_pack parts size)

-- `_split_at_best_separator`
unfoldable pub split_at_best_separator : ℕ → ℕ → Text → Option (List Text)
unfolding split_by hard_cut
split_at_best_separator zero size text = none
split_at_best_separator (suc fuel) size text = elim (find_separator separators text) [
  | none ↦ some (hard_cut size text)
  | some sep ↦ split_by (split_at_best_separator fuel size) size text sep
]

-- `f"{previous[-overlap:]}{piece}"` for each pair of neighbours.
abbrev with_tails : ℕ → Text → List Text → List Text
with_tails overlap previous [] = []
with_tails overlap previous (piece ∷ pieces) =
    (take_last overlap previous ++ piece) ∷ with_tails overlap piece pieces

overlapped : ℕ → List Text → List Text
overlapped overlap [] = []
overlapped zero (piece ∷ pieces) = piece ∷ pieces
overlapped (suc k) (piece ∷ pieces) = piece ∷ with_tails (suc k) piece pieces

-- `_split_oversized`
unfoldable pub split_oversized : ℕ → ℕ → ℕ → Text → Option (List Text)
unfolding split_at_best_separator overlapped
split_oversized fuel size overlap text = elim (split_at_best_separator fuel size text) [
  | none ↦ none
  | some pieces ↦ some (overlapped overlap pieces)
]
