-- ===== src/Chunking/Splitter.antt =====
-- `RecursiveChunker`: its construction, `_breaks_anchor`, `_emit` and `split`.
pub mod Emitted
pub mod Holding
pub mod Invariant
pub mod Steps
pub mod Results
pub mod Coverage
mod Tests
use Prim.Native.String.{String}
use text.Mathlib.Text.{◌==◌ as str_eq}
use secondbrain_ai.Prelude.{
  ℕ, ◌+◌, Bool, true, false, not, ◌&&◌, ◌||◌, Option, none, some, List, [], ◌∷◌, ◌++◌, map, length,
  keep_if, leb, ltb, ◌==◌, if◌then◌else◌,
}
use secondbrain_ai.Prelude.Text.{Text, nonempty, strip, text_eq, contains, join}
use secondbrain_ai.Chunking.Blocks.{Metadata, TextBlock, Chunk, with_text}
use secondbrain_ai.Chunking.Oversized.{split_oversized}

pub record RecursiveChunker : Type 0 where
  pub chunk_size : ℕ
  pub overlap : ℕ
  pub min_chars : ℕ

-- `__init__`: `none` is the `ValueError`.
unfoldable pub new_chunker : ℕ → ℕ → ℕ → Option RecursiveChunker
new_chunker size over min_chars =
    if leb size over
    then none
    else some (record { chunk_size = size; overlap = over; min_chars = min_chars })

-- `a == b` of optional page numbers and of optional section titles.
abbrev page_eq : Option ℕ → Option ℕ → Bool
page_eq none none = true
page_eq none (some b) = false
page_eq (some a) none = false
page_eq (some a) (some b) = a == b

abbrev title_eq : Option Text → Option Text → Bool
title_eq none none = true
title_eq none (some b) = false
title_eq (some a) none = false
title_eq (some a) (some b) = text_eq a b

unfoldable pub breaks_anchor : TextBlock → TextBlock → Bool
breaks_anchor previous current =
    if not (page_eq previous.page_number current.page_number)
    then true
    else not (title_eq previous.section_title current.section_title)

-- `pending and self._breaks_anchor(pending[-1], block)`
unfoldable pub pending_breaks : List TextBlock → TextBlock → Bool
unfolding breaks_anchor
pending_breaks [] block = false
pending_breaks (b ∷ []) block = breaks_anchor b block
pending_breaks (b ∷ c ∷ bs) block = pending_breaks (c ∷ bs) block

-- The heading goes in front of a text that does not contain it.
unfoldable pub with_heading : Option Text → Text → Text
unfolding contains
with_heading none t = t
with_heading (some title) t =
    if nonempty title && not (contains title t) then title ++ (10 ∷ 10 ∷ t) else t

carried : String → Bool
carried key =
    str_eq key "start_line"
    || str_eq key "end_line"
    || str_eq key "row_number"
    || str_eq key "speaker_notes"

abbrev pub stripped : TextBlock → Text
stripped b = strip b.text

-- `"\n\n".join(block.text.strip() for block in blocks)`
unfoldable pub joined : List TextBlock → Text
unfolding join strip
joined bs = join (10 ∷ 10 ∷ []) (map stripped bs)

-- `_emit`. Both of its callers pass at least one block.
unfoldable pub emit : List TextBlock → ℕ → List Chunk
unfolding with_heading joined carried
emit [] start_ordinal = []
emit (head ∷ rest) start_ordinal =
    record {
      text = with_heading head.section_title (joined (head ∷ rest));
      ordinal = start_ordinal;
      page_number = head.page_number;
      section_title = head.section_title;
      char_start = none;
      char_end = none;
      metadata = keep_if (λ kv. carried kv.0) head.metadata;
    }
    ∷ []

-- The variables of `split`: `chunks`, `pending` and `length`.
pub record Packer : Type 0 where
  pub chunks : List Chunk
  pub pending : List TextBlock
  pub used : ℕ

abbrev pub start : Packer
start = record { chunks = []; pending = []; used = 0 }

-- `flush()`
unfoldable pub flush : Packer → Packer
unfolding emit
flush p = elim p.pending [
  | [] ↦ p
  | b ∷ bs ↦ record {
    chunks = p.chunks ++ emit p.pending (length p.chunks);
    pending = [];
    used = 0;
  }
]

-- The chunks of the pieces of an oversized block.
unfoldable pub emit_pieces : TextBlock → List Text → List Chunk → List Chunk
unfolding emit with_text
emit_pieces block [] chunks = chunks
emit_pieces block (piece ∷ pieces) chunks =
    emit_pieces block pieces (chunks ++ emit (with_text block piece ∷ []) (length chunks))

module _ (fuel : ℕ) (c : RecursiveChunker) where
  -- A block that can be packed: `pending.append(block)`, after a flush if the window is full.
  pack_block : TextBlock → Packer → Packer
  unfolding flush strip
  pack_block block p =
      let fits = if ltb c.chunk_size (p.used + length (stripped block) + 2) then flush p else p in
      record fits {
        pending = fits.pending ++ (block ∷ []);
        used = fits.used + (length (stripped block) + 2);
      }

  -- A block bigger than the window: split alone, after a flush.
  pack_oversized : TextBlock → Packer → Option Packer
  unfolding flush strip emit_pieces split_oversized
  pack_oversized block p =
      let flushed = flush p in
      elim (split_oversized fuel c.chunk_size c.overlap (stripped block)) [
        | none ↦ none
        | some pieces ↦ some (record flushed { chunks = emit_pieces block pieces flushed.chunks })
      ]

  -- The body of the loop over the blocks.
  pub step : Packer → TextBlock → Option Packer
  unfolding flush strip pending_breaks pack_block pack_oversized
  step p block =
      if not (nonempty (stripped block))
      then some p
      else let anchored = if pending_breaks p.pending block then flush p else p in
        if ltb c.chunk_size (length (stripped block))
        then pack_oversized block anchored
        else some (pack_block block anchored)

  pub pack : Packer → List TextBlock → Option Packer
  unfolding step
  pack p [] = some p
  pack p (block ∷ blocks) = elim (step p block) [ none ↦ none | some q ↦ pack q blocks ]

  -- `split`: `none` is a `RecursionError` of `_split_oversized`.
  unfoldable pub split : List TextBlock → Option (List Chunk)
  unfolding pack flush
  split blocks = elim (pack start blocks) [
    | none ↦ none
    | some p ↦ some (keep_if (λ chunk. leb c.min_chars (length chunk.text)) (flush p).chunks)
  ]

-- The settings that `build_chunker` reads, and `build_chunker`.
pub record ChunkSettings : Type 0 where
  pub chunk_size_chars : ℕ
  pub chunk_overlap_chars : ℕ
  pub chunk_min_chars : ℕ

unfoldable pub build_chunker : ChunkSettings → Option RecursiveChunker
unfolding new_chunker
build_chunker s = new_chunker s.chunk_size_chars s.chunk_overlap_chars s.chunk_min_chars
