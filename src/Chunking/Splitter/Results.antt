-- ===== src/Chunking/Splitter/Results.antt =====
-- What `split` returns, when it returns, and when it does not.
use secondbrain_ai.Prelude.{
  ℕ, suc, ◌≤◌, ◌<◌, ◌≡◌, refl, subst, ◌⊎◌, inl, inr, true, none, some, List, [], ◌∷◌, ◌++◌, arith,
  length, length-append, ltb, leb, keep_if, All, All-keep_if, Option-cases, Bool-cases,
  if◌then◌else◌,
}
use secondbrain_ai.Prelude.Text.{Text, nonempty}
use secondbrain_ai.Chunking.Blocks.{TextBlock, Chunk}
use secondbrain_ai.Chunking.Separators.{separators, find_separator}
use secondbrain_ai.Chunking.Oversized.Bounds.{PartsFit, split_oversized_total}
use secondbrain_ai.Chunking.Oversized.Divergence.{Word, split_oversized_diverges}
use secondbrain_ai.Chunking.Splitter.{
  RecursiveChunker, pending_breaks, stripped, Packer, start, flush, emit_pieces, pack_block,
  pack_oversized, step, pack, split,
}
use secondbrain_ai.Chunking.Splitter.Invariant.{
  inked, Cites, Increasing, keep_if-Increasing, IsPacking, IsPacking-start,
}
use secondbrain_ai.Chunking.Splitter.Emitted.{OnSuccess, walked-inked}
use secondbrain_ai.Chunking.Splitter.Steps.{flush-IsPacking, pack-IsPacking}

module _ (fuel : ℕ) (c : RecursiveChunker) where
  packed :
      (blocks : List TextBlock)
      → OnSuccess (IsPacking fuel c (inked blocks)) (pack fuel c start blocks)
  packed blocks =
      subst (λ seen. OnSuccess (IsPacking fuel c seen) (pack fuel c start blocks))
        (walked-inked [] blocks) (pack-IsPacking fuel c [] start blocks (IsPacking-start fuel c))

  -- Each chunk that `split` returns comes from the blocks that are not blank. Either it is of a run of them
  -- that have one page and one section, which are the chunk's, and its text is that of those blocks, under
  -- their heading; or it is of one block that is longer than the chunk size, has its page and section, and its
  -- text is one of the pieces of the block, under its heading. Without the heading the text is no longer than
  -- the chunk size and the overlap together.
  pub split-Cites :
      (blocks : List TextBlock)
      → OnSuccess (All (Cites fuel c (inked blocks))) (split fuel c blocks)
  unfolding split
  split-Cites blocks = elim (Option-cases (pack fuel c start blocks)) [
    | inl e ↦ rw (e, split) tt
    | inr (p, e) ↦
        let valid =
          flush-IsPacking fuel c (inked blocks) p
            (subst (OnSuccess (IsPacking fuel c (inked blocks))) e (packed blocks)) in
        rw (e, split) (All-keep_if _ _ _ valid.cites)
  ]

  keep_if-long :
      (chunks : List Chunk)
      → All
          (λ (k : Chunk). c.min_chars ≤ length k.text)
          (keep_if (λ k. leb c.min_chars (length k.text)) chunks)
  keep_if-long [] = tt
  keep_if-long (k ∷ ks) = ground (arith, keep_if-long ks)

  -- The ordinals of the chunks that `split` returns strictly increase, so that no two chunks of a
  -- document have one ordinal, and each text has at least the least length.
  pub split-Increasing :
      (blocks : List TextBlock)
      → OnSuccess
          (λ chunks. Increasing 0 chunks × All (λ k. c.min_chars ≤ length k.text) chunks)
          (split fuel c blocks)
  unfolding split
  split-Increasing blocks = elim (Option-cases (pack fuel c start blocks)) [
    | inl e ↦ rw (e, split) tt
    | inr (p, e) ↦
        let valid =
          flush-IsPacking fuel c (inked blocks) p
            (subst (OnSuccess (IsPacking fuel c (inked blocks))) e (packed blocks)) in
        rw (e, split) (keep_if-Increasing _ 0 _ valid.numbered, keep_if-long _)
  ]

-- A block that is no problem: it fits, or its first separator makes parts that fit, or it has none.
abbrev pub Manageable : RecursiveChunker → TextBlock → Type 0
Manageable c b =
    (length (stripped b) ≤ c.chunk_size)
    ⊎ PartsFit c.chunk_size (stripped b) (find_separator separators (stripped b))

module _ (fuel : ℕ) (c : RecursiveChunker) (positive : 0 < c.chunk_size) where
  pack_oversized_total :
      (block : TextBlock) (p : Packer)
      → PartsFit c.chunk_size (stripped block) (find_separator separators (stripped block))
      → (q : Packer) × (pack_oversized (suc fuel) c block p ≡ some q)
  unfolding pack_oversized
  pack_oversized_total block p h =
      let (pieces, e) =
        split_oversized_total fuel c.chunk_size c.overlap (stripped block) positive h in
      (
        record (flush p) { chunks = emit_pieces block pieces (flush p).chunks },
        rw (e, pack_oversized),
      )

  step_total :
      (p : Packer) (block : TextBlock)
      → Manageable c block
      → (q : Packer) × (step (suc fuel) c p block ≡ some q)
  unfolding step
  step_total p block h = elim (Bool-cases (nonempty (stripped block))) [
    | inr blank ↦ (p, rw (blank, step))
    | inl full ↦
        let anchored = if pending_breaks p.pending block then flush p else p in
        elim (Bool-cases (ltb c.chunk_size (length (stripped block)))) [
          | inr small ↦ (pack_block (suc fuel) c block anchored, rw (full, step) (rw small))
          | inl big ↦ elim h [
            | inl short ↦ absurd (ground arith)
            | inr parts ↦
                let (q, e) = pack_oversized_total block anchored parts in
                (q, rw (full, step) (rw big e))
          ]
        ]
  ]

  pack_total :
      (p : Packer) (blocks : List TextBlock)
      → All (Manageable c) blocks
      → (q : Packer) × (pack (suc fuel) c p blocks ≡ some q)
  unfolding pack
  pack_total p [] h = (p, refl)
  pack_total p (block ∷ blocks) h =
      let (q, e) = step_total p block h.0 in
      let (r, e') = pack_total q blocks h.1 in (r, rw (e, pack) e')

  -- If every block fits, or has parts that fit at its first separator, or has no separator, `split`
  -- returns, with one level of recursion.
  pub split_total :
      (blocks : List TextBlock)
      → All (Manageable c) blocks
      → (chunks : List Chunk) × (split (suc fuel) c blocks ≡ some chunks)
  unfolding split
  split_total blocks h =
      let (p, e) = pack_total start blocks h in
      (keep_if (λ k. leb c.min_chars (length k.text)) (flush p).chunks, rw (e, split))

module _ (fuel : ℕ) (c : RecursiveChunker) (block : TextBlock) (w t : Text)
    (words : stripped block ≡ w ++ 32 ∷ t) (long : c.chunk_size ≤ length w) (hw : Word w)
    (ht : Word t) where
  nonempty_words : (u : Text) → nonempty (u ++ 32 ∷ t) ≡ true
  nonempty_words [] = refl
  nonempty_words (x ∷ u) = refl

  pack_oversized_diverges : (p : Packer) → pack_oversized fuel c block p ≡ none
  unfolding pack_oversized
  pack_oversized_diverges p =
      rw (words, pack_oversized)
        (rw (split_oversized_diverges fuel c.chunk_size c.overlap w t long hw ht))

  step_diverges : (p : Packer) → step fuel c p block ≡ none
  unfolding step
  step_diverges p =
      let big : ltb c.chunk_size (length (w ++ 32 ∷ t)) ≡ true =
        ground (arith, length-append w (32 ∷ t)) in
      rw (words, step)
        (rw (nonempty_words w, big)
          (pack_oversized_diverges (if pending_breaks p.pending block then flush p else p)))

  pack_diverges :
      (p : Packer) (before after : List TextBlock) → pack fuel c p (before ++ block ∷ after) ≡ none
  unfolding pack
  pack_diverges p [] after = rw (step_diverges p, pack)
  pack_diverges p (b ∷ before) after = elim (Option-cases (step fuel c p b)) [
    | inl e ↦ rw (e, pack)
    | inr (q, e) ↦ rw (e, pack) (pack_diverges q before after)
  ]

  -- If the text of one block is a word of at least the chunk size, a space and another word, then
  -- `split` raises `RecursionError` on the whole document, whatever the other blocks are and however
  -- deep the interpreter lets the recursion go.
  pub split_diverges :
      (before after : List TextBlock) → split fuel c (before ++ block ∷ after) ≡ none
  unfolding split
  split_diverges before after = rw (pack_diverges start before after, split)
