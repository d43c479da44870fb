-- ===== src/Chunking/Splitter/Emitted.antt =====
-- What `_emit` makes of blocks, and the blocks that the loop has read.
use secondbrain_ai.Prelude.{
  ℕ, ◌≤◌, ap, ◌∙◌, append_assoc, append-nil, All-mono, ◌≡◌, refl, sym, Option, none, some, List, [],
  ◌∷◌, ◌++◌, length, All, Bool-cases, inl, inr, if◌then◌else◌,
}
use mathlib.Core.List.{Memᴰ}
use secondbrain_ai.Prelude.Text.{Text, nonempty}
use secondbrain_ai.Chunking.Blocks.{TextBlock}
use secondbrain_ai.Chunking.Splitter.{stripped, joined, emit}
use secondbrain_ai.Chunking.Splitter.Invariant.{inked, IsRun, Homogeneous, Numbered}

module _ (b : TextBlock) (bs : List TextBlock) where
  pub emit-IsRun :
      (bound n : ℕ) (before : List TextBlock)
      → Homogeneous (b ∷ bs)
      → length (joined (b ∷ bs)) ≤ bound
      → All (IsRun bound (before ++ (b ∷ bs))) (emit (b ∷ bs) n)
  unfolding emit
  emit-IsRun bound n before same fits = (
    record {
      before = before;
      head = b;
      rest = bs;
      after = [];
      whole = ap (λ x. before ++ (b ∷ x)) (sym (append-nil bs));
      same = same;
      page = refl;
      section = refl;
      body = refl;
      fits = fits;
    },
    tt,
  )

  emit-Numbered : (n : ℕ) → Numbered n (emit (b ∷ bs) n)
  unfolding emit
  emit-Numbered n = (refl, tt)

pub all-Mem : (ts : List Text) → All (λ t. Memᴰ t ts) ts
all-Mem [] = tt
all-Mem (t ∷ ts) = (
  Memᴰ.head refl,
  All-mono (λ x. Memᴰ x ts) (λ x. Memᴰ x (t ∷ ts)) ts (λ x m. Memᴰ.tail m) (all-Mem ts),
)

-- What an outcome of a step promises, if there is one.
abbrev pub OnSuccess {ℓ κ} : {A : Type ℓ} → (A → Type κ) → Option A → Type κ
OnSuccess P none = Unit
OnSuccess P (some a) = P a

-- The blocks that have been read, with one more unless it is blank.
abbrev pub advance : TextBlock → List TextBlock → List TextBlock
advance block seen = if nonempty (stripped block) then seen ++ block ∷ [] else seen

abbrev pub walked : List TextBlock → List TextBlock → List TextBlock
walked seen [] = seen
walked seen (block ∷ blocks) = walked (advance block seen) blocks

pub walked-inked : (seen blocks : List TextBlock) → walked seen blocks ≡ seen ++ inked blocks
walked-inked seen [] = sym (append-nil seen)
walked-inked seen (block ∷ blocks) = elim (Bool-cases (nonempty (stripped block))) [
  | inl full ↦
      rw full
        (walked-inked (seen ++ block ∷ []) blocks ∙ append_assoc seen (block ∷ []) (inked blocks))
  | inr blank ↦ rw blank (walked-inked seen blocks)
]
