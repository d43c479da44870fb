-- ===== src/Chunking/Splitter/Steps.antt =====
-- Every step of `split` keeps the invariant.
use secondbrain_ai.Prelude.{
  ℕ, ◌+◌, ◌≤◌, ◌<◌, ap, ◌∙◌, append_assoc, append-nil, All-mono, ◌≡◌, refl, sym, subst, false, some,
  List, [], ◌∷◌, ◌++◌, arith, length, ltb, All, All-append, Option-cases, Bool-cases, inl, inr,
  if◌then◌else◌,
}
use mathlib.Core.List.{Memᴰ}
use secondbrain_ai.Prelude.Text.{Text, nonempty, length-strip, join}
use secondbrain_ai.Chunking.Blocks.{TextBlock, Chunk, with_text}
use secondbrain_ai.Chunking.Packing.{Fits}
use secondbrain_ai.Chunking.Oversized.{split_oversized}
use secondbrain_ai.Chunking.Oversized.Bounds.{Pieces, split_oversized-Fits}
use secondbrain_ai.Chunking.Splitter.{
  RecursiveChunker, pending_breaks, stripped, joined, emit, Packer, flush, emit_pieces, pack_block,
  pack_oversized, step, pack,
}
use secondbrain_ai.Chunking.Splitter.Invariant.{
  IsRun, Cites, Cites-append, Homogeneous-append, Numbered, Numbered-append, total-append,
  length-joined, IsPacking,
}
use secondbrain_ai.Chunking.Splitter.Emitted.{emit-IsRun, all-Mem, OnSuccess, advance, walked}

module _ (fuel : ℕ) (c : RecursiveChunker) where
  all_cite :
      (seen more : List TextBlock) (chunks : List Chunk)
      → All (Cites fuel c seen) chunks
      → All (Cites fuel c (seen ++ more)) chunks
  all_cite seen more chunks h =
      All-mono (Cites fuel c seen) (Cites fuel c (seen ++ more)) chunks
        (λ k x. Cites-append fuel c seen more k x) h

  flush_at :
      (seen : List TextBlock) (chunks : List Chunk) (pending : List TextBlock) (used : ℕ)
      → let p : Packer = record { chunks = chunks; pending = pending; used = used } in
        IsPacking fuel c seen p
        → IsPacking fuel c seen (flush p) × ((flush p).pending ≡ []) × ((flush p).used ≡ 0)
  unfolding flush
  flush_at seen chunks [] used h = (h, refl, h.counted)
  flush_at seen chunks (b ∷ bs) used h = (
    record {
      cites = All-append (Cites fuel c seen) chunks _ h.cites (
          subst (λ x. All (Cites fuel c x) (emit (b ∷ bs) (length chunks))) (sym h.whole)
            (All-mono (IsRun (c.chunk_size + c.overlap) (h.packed ++ (b ∷ bs)))
              (Cites fuel c (h.packed ++ (b ∷ bs))) (emit (b ∷ bs) (length chunks)) (λ k x. inl x)
              (emit-IsRun b bs (c.chunk_size + c.overlap) (length chunks) h.packed h.same
                (omega (arith, length-joined b bs, h.counted, h.room)))));
      numbered = Numbered-append 0 chunks _ h.numbered (omega arith, tt);
      packed = seen;
      whole = sym (append-nil seen);
      same = tt;
      counted = refl;
      room = omega arith;
    },
    refl,
    refl,
  )

  pub flush-IsPacking :
      (seen : List TextBlock) (p : Packer)
      → IsPacking fuel c seen p
      → IsPacking fuel c seen (flush p)
  flush-IsPacking seen p h = (flush_at seen p.chunks p.pending p.used h).0

  -- The pieces of a block that is too long.
  module _ (before : List TextBlock) (block : TextBlock) (all_pieces : List Text)
      (big : c.chunk_size < length (stripped block))
      (split_into : split_oversized fuel c.chunk_size c.overlap (stripped block)
        ≡ some all_pieces) where
    emit-IsPiece :
        (t : Text) (n : ℕ)
        → Memᴰ t all_pieces
        → Fits (c.chunk_size + c.overlap) t
        → All (Cites fuel c (before ++ block ∷ [])) (emit (with_text block t ∷ []) n)
    unfolding emit joined join with_text
    emit-IsPiece t n m fits = (
      inr record {
        before = before;
        block = block;
        after = [];
        whole = refl;
        big = big;
        pieces = all_pieces;
        split_into = split_into;
        piece = t;
        one_of = m;
        page = refl;
        section = refl;
        body = refl;
        fits = omega (arith, length-strip t, fits);
      },
      tt,
    )

    emit_pieces_lem :
        (pieces : List Text) (chunks : List Chunk)
        → All (λ t. Memᴰ t all_pieces) pieces
        → All (Fits (c.chunk_size + c.overlap)) pieces
        → All (Cites fuel c (before ++ block ∷ [])) chunks
        → Numbered 0 chunks
        → All (Cites fuel c (before ++ block ∷ [])) (emit_pieces block pieces chunks)
          × Numbered 0 (emit_pieces block pieces chunks)
    unfolding emit_pieces
    emit_pieces_lem [] chunks ms fit cites num = (cites, num)
    emit_pieces_lem (t ∷ ts) chunks ms fit cites num =
        emit_pieces_lem ts _ ms.1 fit.1
          (All-append (Cites fuel c (before ++ block ∷ [])) chunks _ cites
            (emit-IsPiece t (length chunks) ms.0 fit.0))
          (Numbered-append 0 chunks _ num (omega arith, tt))

  -- A flush leaves nothing that a block could break with.
  flush_ready :
      (seen : List TextBlock) (block : TextBlock) (p : Packer)
      → IsPacking fuel c seen p
      → IsPacking fuel c seen (flush p)
        × (pending_breaks (flush p).pending block ≡ false)
        × ((flush p).used ≡ 0)
  unfolding pending_breaks
  flush_ready seen block p h =
      let (valid, pending, used) = flush_at seen p.chunks p.pending p.used h in
      (valid, subst (λ bs. pending_breaks bs block ≡ false) (sym pending) refl, used)

  append_block :
      (seen : List TextBlock) (block : TextBlock) (q : Packer)
      → IsPacking fuel c seen q
      → pending_breaks q.pending block ≡ false
      → q.used + length (stripped block) ≤ c.chunk_size
      → IsPacking fuel c (seen ++ block ∷ []) (record q {
        pending = q.pending ++ (block ∷ []);
        used = q.used + (length (stripped block) + 2);
      })
  append_block seen block q h joins fits = record {
    cites = all_cite seen (block ∷ []) q.chunks h.cites;
    numbered = h.numbered;
    packed = h.packed;
    whole = ap (λ x. x ++ block ∷ []) h.whole ∙ append_assoc h.packed q.pending (block ∷ []);
    same = Homogeneous-append q.pending block h.same joins;
    counted = omega (arith, total-append q.pending block, h.counted);
    room = omega arith;
  }

  pack_block-IsPacking :
      (seen : List TextBlock) (block : TextBlock) (p : Packer)
      → IsPacking fuel c seen p
      → pending_breaks p.pending block ≡ false
      → ltb c.chunk_size (length (stripped block)) ≡ false
      → IsPacking fuel c (seen ++ block ∷ []) (pack_block fuel c block p)
  unfolding pack_block
  pack_block-IsPacking seen block p h joins small =
      elim (Bool-cases (ltb c.chunk_size (p.used + length (stripped block) + 2))) [
        | inl full ↦
            let (valid, ready, unused) = flush_ready seen block p h in
            rw full (append_block seen block (flush p) valid ready (rw unused (ground arith)))
        | inr room ↦ rw room (append_block seen block p h joins (ground arith))
      ]

  pack_oversized-IsPacking :
      (seen : List TextBlock) (block : TextBlock) (p : Packer)
      → IsPacking fuel c seen p
      → c.chunk_size < length (stripped block)
      → OnSuccess (IsPacking fuel c (seen ++ block ∷ [])) (pack_oversized fuel c block p)
  unfolding pack_oversized
  pack_oversized-IsPacking seen block p h big =
      elim (Option-cases (split_oversized fuel c.chunk_size c.overlap (stripped block))) [
        | inl e ↦ rw (e, pack_oversized) tt
        | inr (pieces, e) ↦
            let (valid, pending, used) = flush_at seen p.chunks p.pending p.used h in
            let fit : All (Fits (c.chunk_size + c.overlap)) pieces =
              subst (Pieces (Fits (c.chunk_size + c.overlap))) e
                (split_oversized-Fits fuel c.chunk_size c.overlap (stripped block)) in
            let (cites, numbered) =
              emit_pieces_lem seen block pieces big e pieces (flush p).chunks (all-Mem pieces) fit
                (all_cite seen (block ∷ []) (flush p).chunks valid.cites) valid.numbered in
            rw (e, pack_oversized)
              (record {
                cites = cites;
                numbered = numbered;
                packed = seen ++ block ∷ [];
                whole =
                    sym (append-nil (seen ++ block ∷ []))
                    ∙ ap (λ x. (seen ++ block ∷ []) ++ x) (sym pending);
                same = valid.same;
                counted = valid.counted;
                room = valid.room;
              })
      ]

  anchored_ready :
      (seen : List TextBlock) (block : TextBlock) (p : Packer)
      → IsPacking fuel c seen p
      → let q = if pending_breaks p.pending block then flush p else p in
        IsPacking fuel c seen q × (pending_breaks q.pending block ≡ false)
  anchored_ready seen block p h = elim (Bool-cases (pending_breaks p.pending block)) [
    | inl breaks ↦ let (valid, ready, _) = flush_ready seen block p h in rw breaks (valid, ready)
    | inr joins ↦ rw joins (h, joins)
  ]

  pub step-IsPacking :
      (seen : List TextBlock) (p : Packer) (block : TextBlock)
      → IsPacking fuel c seen p
      → OnSuccess (IsPacking fuel c (advance block seen)) (step fuel c p block)
  unfolding step
  step-IsPacking seen p block h = elim (Bool-cases (nonempty (stripped block))) [
    | inr blank ↦ rw blank h
    | inl full ↦
        let (valid, ready) = anchored_ready seen block p h in
        elim (Bool-cases (ltb c.chunk_size (length (stripped block)))) [
          | inl big ↦
              rw (full, big) (pack_oversized-IsPacking seen block _ valid (ground (arith, big)))
          | inr small ↦ rw (full, small) (pack_block-IsPacking seen block _ valid ready small)
        ]
  ]

  -- From a packing that is in order, the loop over the blocks leads to one that is in order.
  pub pack-IsPacking :
      (seen : List TextBlock) (p : Packer) (blocks : List TextBlock)
      → IsPacking fuel c seen p
      → OnSuccess (IsPacking fuel c (walked seen blocks)) (pack fuel c p blocks)
  unfolding pack
  pack-IsPacking seen p [] h = h
  pack-IsPacking seen p (block ∷ blocks) h = elim (Option-cases (step fuel c p block)) [
    | inl e ↦ rw (e, pack) tt
    | inr (q, e) ↦
        rw (e, pack)
          (pack-IsPacking (advance block seen) q blocks (
            subst (OnSuccess (IsPacking fuel c (advance block seen))) e
              (step-IsPacking seen p block h)))
  ]
