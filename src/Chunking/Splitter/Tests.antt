-- ===== src/Chunking/Splitter/Tests.antt =====
-- Runs of the chunker on small inputs, and instances of its theorems.
use secondbrain_ai.Prelude.{
  ℕ, ◌≤◌, ◌≡◌, refl, inl, inr, arith, Option, none, some, List, [], ◌∷◌, length, flatten, All,
}
use secondbrain_ai.Prelude.Text.{Text, codes, strip}
use secondbrain_ai.Chunking.Blocks.{TextBlock, Chunk}
use secondbrain_ai.Chunking.Separators.{
  find_separator, split_keeping_separator, split_keeping_separator_roundtrip,
}
use secondbrain_ai.Chunking.Packing.{Lost, greedy_pack, greedy_pack-Lost}
use secondbrain_ai.Chunking.Splitter.{RecursiveChunker, split}
use secondbrain_ai.Chunking.Splitter.Invariant.{inked, Cites, Increasing}
use secondbrain_ai.Chunking.Splitter.Emitted.{OnSuccess}
use secondbrain_ai.Chunking.Splitter.Results.{Manageable, split-Cites, split-Increasing}
use secondbrain_ai.Chunking.Splitter.Coverage.{HeldIfFits, split_keeps}

abbrev block_of : Text → ℕ → TextBlock
block_of t page = record {
  text = t;
  page_number = some page;
  section_title = none;
  heading_level = none;
  metadata = [];
}

abbrev small : RecursiveChunker
small = record { chunk_size = 8; overlap = 2; min_chars = 1 }

abbrev pages : List TextBlock
pages =
    block_of (codes " one ") 1
    ∷ block_of (codes "a b c d e f") 1
    ∷ block_of (codes "two") 2
    ∷ block_of (codes "") 2
    ∷ block_of (codes "six") 2
    ∷ []

abbrev texts : List Chunk → List Text
texts [] = []
texts (k ∷ ks) = k.text ∷ texts ks

abbrev texts_of : Option (List Chunk) → Option (List Text)
texts_of none = none
texts_of (some ks) = some (texts ks)

pages_are_split :
    texts_of (split 1 small pages)
    ≡ some (codes "one" ∷ codes "a b c d" ∷ codes "d e f" ∷ codes "two" ∷ codes "six" ∷ [])
unfolding split find_separator split_keeping_separator greedy_pack
pages_are_split = refl

split_keeping_separator_roundtrip_example :
    flatten (split_keeping_separator (codes "a b ") (codes " ")) ≡ codes "a b "
split_keeping_separator_roundtrip_example =
    split_keeping_separator_roundtrip (codes "a b ") (codes " ") refl

greedy_pack-Lost_example :
    Lost (greedy_pack (codes "a " ∷ codes "b " ∷ codes " " ∷ []) 4) (codes "a b  ")
unfolding flatten
greedy_pack-Lost_example = greedy_pack-Lost 4 (codes "a " ∷ codes "b " ∷ codes " " ∷ [])

split-Cites_example : OnSuccess (All (Cites 1 small (inked pages))) (split 1 small pages)
split-Cites_example = split-Cites 1 small pages

split-Increasing_example :
    OnSuccess
      (λ chunks. Increasing 0 chunks × All (λ k. 1 ≤ length k.text) chunks)
      (split 1 small pages)
split-Increasing_example = split-Increasing 1 small pages

pages-Manageable : All (Manageable small) pages
unfolding find_separator split_keeping_separator strip
pages-Manageable = (
  inl (omega arith),
  (inr (omega arith), (inl (omega arith), (inl (omega arith), (inl (omega arith), tt)))),
)

split_keeps_example :
    (chunks : List Chunk) × (split 1 small pages ≡ some chunks)
    × All (HeldIfFits small chunks) (inked pages)
split_keeps_example = split_keeps 0 small pages (omega arith) pages-Manageable
