-- ===== src/Chunking/Splitter/Coverage.antt =====
-- The blocks that the chunks of `split` hold.
use secondbrain_ai.Prelude.{
  ℕ, suc, ◌+◌, ◌≤◌, ◌<◌, ◌≡◌, ap, subst, ◌⊎◌, inl, inr, true, some, List, [], ◌∷◌, ◌++◌, arith,
  length, length-append, ltb, leb, All, All-mono, All-append, append-mem, append-mem_last, keep_if,
  keep_if-mem, Option-cases, Bool-cases, if◌then◌else◌,
}
use mathlib.Core.List.{Memᴰ}
use secondbrain_ai.Prelude.Text.{Text, nonempty}
use secondbrain_ai.Chunking.Blocks.{TextBlock, Chunk}
use secondbrain_ai.Chunking.Oversized.{split_oversized}
use secondbrain_ai.Chunking.Splitter.{
  RecursiveChunker, pending_breaks, stripped, Packer, start, flush, pack_block, pack_oversized,
  step, pack, split,
}
use secondbrain_ai.Chunking.Splitter.Invariant.{inked}
use secondbrain_ai.Chunking.Splitter.Emitted.{OnSuccess, advance, walked, walked-inked}
use secondbrain_ai.Chunking.Splitter.Results.{Manageable, split_total}
use secondbrain_ai.Chunking.Splitter.Holding.{Held, Kept, flush-Held, emit_pieces-Held}

-- What the packing of a block keeps, and the block itself where it fits.
module _ (fuel : ℕ) (c : RecursiveChunker) (block : TextBlock) where
  appended : Packer → Packer
  appended q = record q {
    pending = q.pending ++ (block ∷ []);
    used = q.used + (length (stripped block) + 2);
  }

  pack_block-Kept :
      (p : Packer)
      → ((b : TextBlock) → Kept p b → Kept (pack_block fuel c block p) b)
        × Kept (pack_block fuel c block p) block
  unfolding pack_block
  pack_block-Kept p = elim (Bool-cases (ltb c.chunk_size (p.used + length (stripped block) + 2))) [
    | inl full ↦
        rw full ((λ b h. inr (flush-Held p b h)), inl (append-mem_last (flush p).pending block))
    | inr room ↦ rw room (more, inl (append-mem_last p.pending block))
  ]
    where
      more : (b : TextBlock) → Kept p b → Memᴰ b (p.pending ++ (block ∷ [])) ⊎ Held p.chunks b
      more b (inl m) = inl (append-mem p.pending (block ∷ []) b m)
      more b (inr h) = inr h

  pack_oversized-Kept :
      (p : Packer)
      → OnSuccess (λ q. (b : TextBlock) → Kept p b → Kept q b) (pack_oversized fuel c block p)
  unfolding pack_oversized
  pack_oversized-Kept p =
      elim (Option-cases (split_oversized fuel c.chunk_size c.overlap (stripped block))) [
        | inl e ↦ rw (e, pack_oversized) tt
        | inr (pieces, e) ↦
            rw (e, pack_oversized)
              (λ b h. inr (emit_pieces-Held block pieces (flush p).chunks b (flush-Held p b h)))
      ]

  anchored-Kept :
      (p : Packer) (b : TextBlock)
      → Kept p b
      → Kept (if pending_breaks p.pending block then flush p else p) b
  anchored-Kept p b h = elim (Bool-cases (pending_breaks p.pending block)) [
    | inl breaks ↦ rw breaks (inr (flush-Held p b h))
    | inr joins ↦ rw joins h
  ]

-- A block that fits in the window is waiting or in a chunk.
abbrev Covered : RecursiveChunker → Packer → TextBlock → Type 0
Covered c p b = length (stripped b) ≤ c.chunk_size → Kept p b

-- If the block's text is long enough for a chunk and fits in the window, a chunk has it.
abbrev pub HeldIfFits : RecursiveChunker → List Chunk → TextBlock → Type 0
HeldIfFits c chunks b =
    c.min_chars ≤ length (stripped b) → length (stripped b) ≤ c.chunk_size → Held chunks b

module _ (fuel : ℕ) (c : RecursiveChunker) where
  all-Covered :
      (p q : Packer) (seen : List TextBlock)
      → ((b : TextBlock) → Kept p b → Kept q b)
      → All (Covered c p) seen
      → All (Covered c q) seen
  all-Covered p q seen more h =
      All-mono (Covered c p) (Covered c q) seen (λ b kept fits. more b (kept fits)) h

  with_block-Covered :
      (p q : Packer) (seen : List TextBlock) (block : TextBlock)
      → ((b : TextBlock) → Kept p b → Kept q b)
      → Covered c q block
      → All (Covered c p) seen
      → All (Covered c q) (seen ++ block ∷ [])
  with_block-Covered p q seen block more own h =
      All-append (Covered c q) seen (block ∷ []) (all-Covered p q seen more h) (own, tt)

  oversized-Covered :
      (seen : List TextBlock) (p q : Packer) (block : TextBlock)
      → c.chunk_size < length (stripped block)
      → ((b : TextBlock) → Kept p b → Kept q b)
      → All (Covered c p) seen
      → OnSuccess (λ r. All (Covered c r) (seen ++ block ∷ [])) (pack_oversized fuel c block q)
  oversized-Covered seen p q block big more h =
      elim (Option-cases (pack_oversized fuel c block q)) [
        | inl e ↦ rw e tt
        | inr (r, e) ↦
            let kept : (b : TextBlock) → Kept q b → Kept r b =
              subst (OnSuccess (λ x. (b : TextBlock) → Kept q b → Kept x b)) e
                (pack_oversized-Kept fuel c block q) in
            rw e (
              with_block-Covered p r seen block (λ b k. kept b (more b k))
                (λ fits. absurd (omega (arith, fits, big))) h)
      ]

  step-Covered :
      (seen : List TextBlock) (p : Packer) (block : TextBlock)
      → All (Covered c p) seen
      → OnSuccess (λ q. All (Covered c q) (advance block seen)) (step fuel c p block)
  unfolding step
  step-Covered seen p block h = elim (Bool-cases (nonempty (stripped block))) [
    | inr blank ↦ rw blank h
    | inl full ↦
        let anchored : Packer = if pending_breaks p.pending block then flush p else p in
        elim (Bool-cases (ltb c.chunk_size (length (stripped block)))) [
          | inl big ↦
              rw (full, big)
                (oversized-Covered seen p anchored block (ground (arith, big))
                  (anchored-Kept fuel c block p) h)
          | inr small ↦
              let (more, own) = pack_block-Kept fuel c block anchored in
              rw (full, small)
                (with_block-Covered p (pack_block fuel c block anchored) seen block
                  (λ b k. more b (anchored-Kept fuel c block p b k)) (λ fits. own) h)
        ]
  ]

  pack-Covered :
      (seen : List TextBlock) (p : Packer) (blocks : List TextBlock)
      → All (Covered c p) seen
      → OnSuccess (λ q. All (Covered c q) (walked seen blocks)) (pack fuel c p blocks)
  unfolding pack
  pack-Covered seen p [] h = h
  pack-Covered seen p (block ∷ blocks) h = elim (Option-cases (step fuel c p block)) [
    | inl e ↦ rw (e, pack) tt
    | inr (q, e) ↦
        rw (e, pack)
          (pack-Covered (advance block seen) q blocks (
            subst (OnSuccess (λ x. All (Covered c x) (advance block seen))) e
              (step-Covered seen p block h)))
  ]

  long_enough :
      (chunks : List Chunk) (b : TextBlock)
      → c.min_chars ≤ length (stripped b)
      → Held chunks b
      → Held (keep_if (λ k. leb c.min_chars (length k.text)) chunks) b
  long_enough chunks b long (k, m, (x, y, e)) =
      let measured = ap (λ (t : Text). length t) e in
      let passes : leb c.min_chars (length k.text) ≡ true =
        ground (arith, measured, length-append x (stripped b ++ y), length-append (stripped b) y) in
      (k, keep_if-mem (λ k. leb c.min_chars (length k.text)) chunks k m passes, (x, y, e))

  split-Held :
      (blocks : List TextBlock)
      → OnSuccess (λ chunks. All (HeldIfFits c chunks) (inked blocks)) (split fuel c blocks)
  unfolding split
  split-Held blocks = elim (Option-cases (pack fuel c start blocks)) [
    | inl e ↦ rw (e, split) tt
    | inr (p, e) ↦
        let covered : All (Covered c p) (walked [] blocks) =
          subst (OnSuccess (λ x. All (Covered c x) (walked [] blocks))) e
            (pack-Covered [] start blocks tt) in
        rw (e, split)
          (All-mono (Covered c p) _ (inked blocks)
            (λ b kept long fits. long_enough (flush p).chunks b long (flush-Held p b (kept fits)))
            (subst (All (Covered c p)) (walked-inked [] blocks) covered))
  ]

-- If every block fits in the window, or its first separator makes parts that fit, or it has none, then `split`
-- returns, with one level of recursion; and each block that is not blank, fits in the window and has at
-- least the least length stands, without space at its ends and without a gap, in the text of one of the
-- chunks.
pub split_keeps :
    (fuel : ℕ) (c : RecursiveChunker) (blocks : List TextBlock)
    → 0 < c.chunk_size
    → All (Manageable c) blocks
    → (chunks : List Chunk) × (split (suc fuel) c blocks ≡ some chunks)
      × All (HeldIfFits c chunks) (inked blocks)
split_keeps fuel c blocks positive fine =
    let (chunks, e) = split_total fuel c positive blocks fine in
    (
      chunks,
      e,
      subst (OnSuccess (λ x. All (HeldIfFits c x) (inked blocks))) e
          (split-Held (suc fuel) c blocks),
    )
