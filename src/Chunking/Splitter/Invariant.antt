-- ===== src/Chunking/Splitter/Invariant.antt =====
-- What holds of the variables of `split` between two blocks.
use secondbrain_ai.Prelude.{
  ℕ, suc, ◌+◌, ◌≤◌, ◌<◌, ◌⊎◌, append_assoc, ◌≡◌, refl, sym, ap, ◌∙◌, subst, Bool, true, false, not,
  Option, none, some, List, [], ◌∷◌, ◌++◌, arith, length, length-append, All, All-mono, All-append,
  ==_iff, keep_if, Bool-cases, inl, inr, if◌then◌else◌,
}
use secondbrain_ai.Prelude.Text.{Text, text_eq→eq, join, strip, nonempty}
use secondbrain_ai.Chunking.Blocks.{TextBlock, Chunk}
use mathlib.Core.List.{Memᴰ}
use secondbrain_ai.Chunking.Oversized.{split_oversized}
use secondbrain_ai.Chunking.Splitter.{
  RecursiveChunker, page_eq, title_eq, breaks_anchor, pending_breaks, with_heading, stripped,
  joined, Packer, start,
}

-- Two blocks that one citation can stand for: the same page and the same section.
pub record SameAnchor (a b : TextBlock) : Type 0 where
  pub page : a.page_number ≡ b.page_number
  pub section : a.section_title ≡ b.section_title

-- The blocks that are not blank.
abbrev pub inked : List TextBlock → List TextBlock
inked blocks = keep_if (λ b. nonempty (stripped b)) blocks

-- A chunk of a run of the blocks, which all have one anchor, the chunk's own: its text is theirs, under their
-- heading, and without the heading within the bound.
pub record IsRun (bound : ℕ) (blocks : List TextBlock) (chunk : Chunk) : Type 0 where
  pub before : List TextBlock
  pub head : TextBlock
  pub rest : List TextBlock
  pub after : List TextBlock
  pub whole : blocks ≡ before ++ (head ∷ rest ++ after)
  pub same : All (SameAnchor head) rest
  pub page : chunk.page_number ≡ head.page_number
  pub section : chunk.section_title ≡ head.section_title
  pub body : chunk.text ≡ with_heading head.section_title (joined (head ∷ rest))
  pub fits : length (joined (head ∷ rest)) ≤ bound

-- A chunk of one of the blocks, which is longer than the chunk size: its text is one of the pieces that
-- the block is split into, under the block's heading, and without the heading within the bound.
pub record IsPiece (fuel : ℕ) (c : RecursiveChunker) (blocks : List TextBlock) (chunk : Chunk)
    : Type 0 where
  pub before : List TextBlock
  pub block : TextBlock
  pub after : List TextBlock
  pub whole : blocks ≡ before ++ (block ∷ after)
  pub big : c.chunk_size < length (stripped block)
  pub pieces : List Text
  pub split_into : split_oversized fuel c.chunk_size c.overlap (stripped block) ≡ some pieces
  pub piece : Text
  pub one_of : Memᴰ piece pieces
  pub page : chunk.page_number ≡ block.page_number
  pub section : chunk.section_title ≡ block.section_title
  pub body : chunk.text ≡ with_heading block.section_title (strip piece)
  pub fits : length (strip piece) ≤ c.chunk_size + c.overlap

-- A chunk that cites blocks of the document.
abbrev pub Cites : ℕ → RecursiveChunker → List TextBlock → Chunk → Type 0
Cites fuel c blocks chunk =
    IsRun (c.chunk_size + c.overlap) blocks chunk ⊎ IsPiece fuel c blocks chunk

-- What cites some blocks cites them where more follow.
pub Cites-append :
    (fuel : ℕ) (c : RecursiveChunker) (blocks more : List TextBlock) (chunk : Chunk)
    → Cites fuel c blocks chunk
    → Cites fuel c (blocks ++ more) chunk
Cites-append fuel c blocks more chunk (inl r) = inl record {
  before = r.before;
  head = r.head;
  rest = r.rest;
  after = r.after ++ more;
  whole =
      ap (λ bs. bs ++ more) r.whole
      ∙ append_assoc r.before (r.head ∷ r.rest ++ r.after) more
      ∙ ap (λ bs. r.before ++ (r.head ∷ bs)) (append_assoc r.rest r.after more);
  same = r.same;
  page = r.page;
  section = r.section;
  body = r.body;
  fits = r.fits;
}
Cites-append fuel c blocks more chunk (inr r) = inr record {
  before = r.before;
  block = r.block;
  after = r.after ++ more;
  whole = ap (λ bs. bs ++ more) r.whole ∙ append_assoc r.before (r.block ∷ r.after) more;
  big = r.big;
  pieces = r.pieces;
  split_into = r.split_into;
  piece = r.piece;
  one_of = r.one_of;
  page = r.page;
  section = r.section;
  body = r.body;
  fits = r.fits;
}

abbrev pub Homogeneous : List TextBlock → Type 0
Homogeneous [] = Unit
Homogeneous (b ∷ bs) = All (SameAnchor b) bs

-- The ordinals count up by one from a number.
abbrev pub Numbered : ℕ → List Chunk → Type 0
Numbered k [] = Unit
Numbered k (c ∷ cs) = (c.ordinal ≡ k) × Numbered (k + 1) cs

-- The ordinals strictly increase, from a number or above.
abbrev pub Increasing : ℕ → List Chunk → Type 0
Increasing k [] = Unit
Increasing k (c ∷ cs) = (k ≤ c.ordinal) × Increasing (c.ordinal + 1) cs

-- The sum that `length` keeps: each text, and the blank line that joins it to the one before.
abbrev pub total : List TextBlock → ℕ
total [] = 0
total (b ∷ bs) = length (stripped b) + 2 + total bs

-- What holds when these blocks have been read.
pub record IsPacking (fuel : ℕ) (c : RecursiveChunker) (seen : List TextBlock) (p : Packer)
    : Type 0 where
  pub cites : All (Cites fuel c seen) p.chunks
  pub numbered : Numbered 0 p.chunks
  pub packed : List TextBlock
  pub whole : seen ≡ packed ++ p.pending
  pub same : Homogeneous p.pending
  pub counted : p.used ≡ total p.pending
  pub room : p.used ≤ c.chunk_size + 2

pub IsPacking-start : (fuel : ℕ) (c : RecursiveChunker) → IsPacking fuel c [] start
IsPacking-start fuel c = record {
  cites = tt;
  numbered = tt;
  packed = [];
  whole = refl;
  same = tt;
  counted = refl;
  room = omega arith;
}

-- The anchors.
page_eq→eq : (a b : Option ℕ) → page_eq a b ≡ true → a ≡ b
page_eq→eq none none h = refl
page_eq→eq none (some b) h = cc
page_eq→eq (some a) none h = cc
page_eq→eq (some a) (some b) h = ap {B = Option ℕ} some ((==_iff a b).0 h)

title_eq→eq : (a b : Option Text) → title_eq a b ≡ true → a ≡ b
title_eq→eq none none h = refl
title_eq→eq none (some b) h = cc
title_eq→eq (some a) none h = cc
title_eq→eq (some a) (some b) h = ap {B = Option Text} some (text_eq→eq a b h)

anchor_tests : (p t : Bool) → (if not p then true else not t) ≡ false → (p ≡ true) × (t ≡ true)
anchor_tests p t h = ground arith

breaks_anchor→SameAnchor : (a b : TextBlock) → breaks_anchor a b ≡ false → SameAnchor a b
unfolding breaks_anchor
breaks_anchor→SameAnchor a b h =
    let (page, title) = anchor_tests _ _ h in
    record {
      page = page_eq→eq a.page_number b.page_number page;
      section = title_eq→eq a.section_title b.section_title title;
    }

SameAnchor-trans : {a b c : TextBlock} → SameAnchor a b → SameAnchor b c → SameAnchor a c
SameAnchor-trans p q = record { page = p.page ∙ q.page; section = p.section ∙ q.section }

SameAnchor-sym : {a b : TextBlock} → SameAnchor a b → SameAnchor b a
SameAnchor-sym p = record { page = sym p.page; section = sym p.section }

pub last_SameAnchor :
    (b : TextBlock) (bs : List TextBlock) (block : TextBlock)
    → All (SameAnchor b) bs
    → pending_breaks (b ∷ bs) block ≡ false
    → SameAnchor b block
unfolding pending_breaks
last_SameAnchor b [] block h e = breaks_anchor→SameAnchor b block e
last_SameAnchor b (c ∷ bs) block h e = SameAnchor-trans h.0 (
    last_SameAnchor c bs block
      (All-mono (SameAnchor b) (SameAnchor c) bs (λ x p. SameAnchor-trans (SameAnchor-sym h.0) p)
        h.1)
      e)

pub Homogeneous-append :
    (bs : List TextBlock) (block : TextBlock)
    → Homogeneous bs
    → pending_breaks bs block ≡ false
    → Homogeneous (bs ++ block ∷ [])
Homogeneous-append [] block h e = tt
Homogeneous-append (b ∷ bs) block h e =
    All-append (SameAnchor b) bs (block ∷ []) h (last_SameAnchor b bs block h e, tt)

-- The lengths.
pub total-append :
    (bs : List TextBlock) (block : TextBlock)
    → total (bs ++ block ∷ []) ≡ total bs + (length (stripped block) + 2)
total-append [] block = omega arith
total-append (b ∷ bs) block = omega (arith, total-append bs block)

pub length-joined :
    (b : TextBlock) (bs : List TextBlock) → length (joined (b ∷ bs)) + 2 ≡ total (b ∷ bs)
unfolding joined join
length-joined b [] = omega arith
length-joined b (c ∷ bs) =
    omega (arith, length-joined c bs, length-append (stripped b) (10 ∷ 10 ∷ joined (c ∷ bs)))

-- The ordinals.
pub Numbered-append :
    (k : ℕ) (xs ys : List Chunk)
    → Numbered k xs
    → Numbered (k + length xs) ys
    → Numbered k (xs ++ ys)
Numbered-append k [] ys hx hy = let e : k + 0 ≡ k = omega arith in rw e at hy
Numbered-append k (x ∷ xs) ys hx hy =
    let e : k + suc (length xs) ≡ k + 1 + length xs = omega arith in
    (hx.0, Numbered-append (k + 1) xs ys hx.1 (rw e at hy))

Increasing-mono : (j k : ℕ) (cs : List Chunk) → j ≤ k → Increasing k cs → Increasing j cs
Increasing-mono j k [] h i = tt
Increasing-mono j k (c ∷ cs) h i = (omega (arith, i.0), i.1)

-- Dropping chunks leaves the ordinals increasing.
pub keep_if-Increasing :
    (test : Chunk → Bool) (k : ℕ) (cs : List Chunk) → Numbered k cs → Increasing k (keep_if test cs)
keep_if-Increasing test k [] h = tt
keep_if-Increasing test k (c ∷ cs) h =
    let later = keep_if-Increasing test (k + 1) cs h.1 in
    elim (Bool-cases (test c)) [
      | inl kept ↦
          rw kept
            (omega (arith, h.0), subst (λ n. Increasing (n + 1) (keep_if test cs)) (sym h.0) later)
      | inr dropped ↦ rw dropped (Increasing-mono k (k + 1) (keep_if test cs) (omega arith) later)
    ]
