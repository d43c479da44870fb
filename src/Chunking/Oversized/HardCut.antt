-- ===== src/Chunking/Oversized/HardCut.antt =====
-- The hard cut of a text without separators.
use secondbrain_ai.Prelude.{
  ℕ, zero, suc, ◌≤◌, ◌<◌, ◌≡◌, refl, ap, ◌∙◌, [], ◌∷◌, ◌++◌, flatten, arith, length, take, drop,
  take-append-drop, length-drop, length-take, All,
}
use secondbrain_ai.Prelude.Text.{Text}
use secondbrain_ai.Chunking.Packing.{Fits}
use secondbrain_ai.Chunking.Oversized.{hard_cut_from, hard_cut}

flatten-hard_cut_from :
    (n size : ℕ) (t : Text) → 0 < size → length t ≤ n → flatten (hard_cut_from n size t) ≡ t
unfolding hard_cut_from flatten
flatten-hard_cut_from zero size [] h b = refl
flatten-hard_cut_from zero size (c ∷ t) h b = absurd (omega arith)
flatten-hard_cut_from (suc n) size [] h b = refl
flatten-hard_cut_from (suc n) size (c ∷ t) h b =
    ap (λ (u : Text). take size (c ∷ t) ++ u)
      (flatten-hard_cut_from n size (drop size (c ∷ t)) h (omega (arith, length-drop size (c ∷ t))))
    ∙ take-append-drop size (c ∷ t)

pub hard_cut_from-Fits : (n size : ℕ) (t : Text) → All (Fits size) (hard_cut_from n size t)
unfolding hard_cut_from
hard_cut_from-Fits zero size t = tt
hard_cut_from-Fits (suc n) size [] = tt
hard_cut_from-Fits (suc n) size (c ∷ t) =
    (omega (arith, length-take size (c ∷ t)), hard_cut_from-Fits n size (drop size (c ∷ t)))

-- With a positive chunk size a hard cut keeps the whole text, in pieces of at most that size.
pub hard_cut_lem :
    (size : ℕ) (t : Text)
    → 0 < size
    → (flatten (hard_cut size t) ≡ t) × All (Fits size) (hard_cut size t)
unfolding hard_cut
hard_cut_lem size t h =
    (flatten-hard_cut_from (length t) size t h (omega arith), hard_cut_from-Fits (length t) size t)
