-- ===== src/Chunking/Splitter/Holding.antt =====
-- Chunks that have all of the text of a block.
use secondbrain_ai.Prelude.{
  ℕ, ◌≡◌, sym, ap, ◌∙◌, ◌⊎◌, inl, inr, ◌&&◌, not, Option, none, some, List, [], ◌∷◌, ◌++◌, length,
  append_assoc, append-nil, append-mem, append-mem_last, Bool-cases,
}
use mathlib.Core.List.{Memᴰ}
use secondbrain_ai.Prelude.Text.{Text, nonempty, contains, join}
use secondbrain_ai.Chunking.Blocks.{TextBlock, Chunk, with_text}
use secondbrain_ai.Chunking.Splitter.{
  with_heading, stripped, joined, emit, Packer, flush, emit_pieces,
}

-- The text stands in the other without a gap.
abbrev pub Within : Text → Text → Type 0
Within t u = (before : Text) × (after : Text) × (u ≡ before ++ (t ++ after))

-- One of the chunks has all of the block's text.
abbrev pub Held : List Chunk → TextBlock → Type 0
Held chunks b = (k : Chunk) × Memᴰ k chunks × Within (stripped b) k.text

joined-Within : (b : TextBlock) (bs : List TextBlock) → Memᴰ b bs → Within (stripped b) (joined bs)
unfolding joined join
joined-Within b [] m = elim m [ ]
joined-Within b (c ∷ []) (Memᴰ.head e) =
    ([], [], ap (λ x. stripped x) (sym e) ∙ sym (append-nil (stripped b)))
joined-Within b (c ∷ []) (Memᴰ.tail m) = elim m [ ]
joined-Within b (c ∷ d ∷ ds) (Memᴰ.head e) =
    ([], 10 ∷ 10 ∷ joined (d ∷ ds), ap (λ x. stripped x ++ (10 ∷ 10 ∷ joined (d ∷ ds))) (sym e))
joined-Within b (c ∷ d ∷ ds) (Memᴰ.tail m) =
    let (x, y, e) = joined-Within b (d ∷ ds) m in
    (
      stripped c ++ (10 ∷ 10 ∷ x),
      y,
      ap (λ u. stripped c ++ (10 ∷ 10 ∷ u)) e
          ∙ sym (append_assoc (stripped c) (10 ∷ 10 ∷ x) (stripped b ++ y)),
    )

with_heading-Within :
    (heading : Option Text) (t u : Text) → Within t u → Within t (with_heading heading u)
unfolding with_heading
with_heading-Within none t u h = h
with_heading-Within (some title) t u (x, y, e) =
    elim (Bool-cases (nonempty title && not (contains title u))) [
      | inl put ↦ rw put (
        title ++ (10 ∷ 10 ∷ x),
        y,
        ap (λ v. title ++ (10 ∷ 10 ∷ v)) e ∙ sym (append_assoc title (10 ∷ 10 ∷ x) (t ++ y)),
      )
      | inr left ↦ rw left (x, y, e)
    ]

Held-append : (chunks more : List Chunk) (b : TextBlock) → Held chunks b → Held (chunks ++ more) b
Held-append chunks more b (k, m, w) = (k, append-mem chunks more k m, w)

emit-Held :
    (chunks : List Chunk) (bs : List TextBlock) (n : ℕ) (b : TextBlock)
    → Memᴰ b bs
    → Held (chunks ++ emit bs n) b
unfolding emit
emit-Held chunks [] n b m = elim m [ ]
emit-Held chunks (c ∷ cs) n b m = (
  _,
  append-mem_last chunks _,
  with_heading-Within c.section_title (stripped b) (joined (c ∷ cs)) (joined-Within b (c ∷ cs) m),
)

-- A block that has been read waits or is in a chunk.
abbrev pub Kept : Packer → TextBlock → Type 0
Kept p b = Memᴰ b p.pending ⊎ Held p.chunks b

flushed-Held :
    (chunks : List Chunk) (pending : List TextBlock) (used : ℕ) (b : TextBlock)
    → Memᴰ b pending ⊎ Held chunks b
    → Held (flush (record { chunks = chunks; pending = pending; used = used })).chunks b
unfolding flush
flushed-Held chunks [] used b (inl m) = elim m [ ]
flushed-Held chunks [] used b (inr h) = h
flushed-Held chunks (c ∷ cs) used b (inl m) = emit-Held chunks (c ∷ cs) (length chunks) b m
flushed-Held chunks (c ∷ cs) used b (inr h) = Held-append chunks (emit (c ∷ cs) (length chunks)) b h

pub flush-Held : (p : Packer) (b : TextBlock) → Kept p b → Held (flush p).chunks b
flush-Held p b h = flushed-Held p.chunks p.pending p.used b h

pub emit_pieces-Held :
    (block : TextBlock) (pieces : List Text) (chunks : List Chunk) (b : TextBlock)
    → Held chunks b
    → Held (emit_pieces block pieces chunks) b
unfolding emit_pieces
emit_pieces-Held block [] chunks b h = h
emit_pieces-Held block (t ∷ ts) chunks b h =
    emit_pieces-Held block ts _ b
      (Held-append chunks (emit (with_text block t ∷ []) (length chunks)) b h)
