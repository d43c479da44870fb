-- ===== src/Chat/Grounded.antt =====
-- The citations and the prompt of `answer` of backend/app/services/chat.py.
use secondbrain_ai.Prelude.{
  ℕ, ◌+◌, ◌-◌, ◌≤◌, suc, min, ◌≡◌, refl, sym, subst, ◌⊎◌, inl, inr, Bool, true, false, List, [],
  ◌∷◌, map, arith, length, length-append, length-drop, length-take, take, take_last, keep_if, any,
  All, All-take, keep_if-mem, All-keep_if, All-mono, Bool-cases, ◌==◌,
}
use mathlib.Core.List.{Memᴰ}
use secondbrain_ai.Prelude.Text.{Text}
use secondbrain_ai.Retrieval.Search.{SearchHit}
use secondbrain_ai.Chat.Numbers.{Digits, referenced_numbers}
use secondbrain_ai.Chat.{
  Message, Citation, citation_for, sources_from, or_first_three, cited, max_history_messages,
  replayed, build_messages, answer,
}

-- The number of a source is the place of its passage among the hits.
unfoldable pub Numbers : ℕ → List SearchHit → Citation → Type 0
Numbers n [] c = ⊥
Numbers n (hit ∷ hits) c =
    ((c.number ≡ n) × (c.chunk_id ≡ hit.chunk_id) × (c.document_id ≡ hit.document_id))
    ⊎ Numbers (suc n) hits c

sources_from-Numbers : (n : ℕ) (hits : List SearchHit) → All (Numbers n hits) (sources_from n hits)
unfolding sources_from citation_for Numbers
sources_from-Numbers n [] = tt
sources_from-Numbers n (hit ∷ hits) = (
  inl (refl, refl, refl),
  All-mono _ _ (sources_from (suc n) hits) (λ c x. inr x) (sources_from-Numbers (suc n) hits),
)

-- A source that the text refers to.
abbrev pub IsReferenced : Digits → Text → Citation → Type 0
IsReferenced digits text c = any (λ n. c.number == n) (referenced_numbers digits text) ≡ true

kept-All : (p : Citation → Bool) (cs : List Citation) → All (λ c. p c ≡ true) (keep_if p cs)
kept-All p [] = tt
kept-All p (c ∷ cs) = elim (Bool-cases (p c)) [
  | inl yes_c ↦ rw yes_c (yes_c, kept-All p cs)
  | inr no_c ↦ rw no_c (kept-All p cs)
]

nothing_kept :
    (p : Citation → Bool) (cs : List Citation) → keep_if p cs ≡ [] → All (λ c. p c ≡ false) cs
nothing_kept p [] h = tt
nothing_kept p (c ∷ cs) h = elim (Bool-cases (p c)) [
  | inl yes_c ↦ let at : c ∷ keep_if p cs ≡ [] = rw yes_c at h in cc
  | inr no_c ↦ (no_c, nothing_kept p cs (rw no_c at h))
]

mem-cons :
    (c x : Citation) (xs ys : List Citation)
    → (Memᴰ c xs → Memᴰ c ys)
    → Memᴰ c (x ∷ xs)
    → Memᴰ c (x ∷ ys)
mem-cons c x xs ys f (Memᴰ.head e) = Memᴰ.head e
mem-cons c x xs ys f (Memᴰ.tail m) = Memᴰ.tail (f m)

mem-kept :
    (p : Citation → Bool) (cs : List Citation) (c : Citation) → Memᴰ c (keep_if p cs) → Memᴰ c cs
mem-kept p [] c m = m
mem-kept p (x ∷ cs) c m = elim (Bool-cases (p x)) [
  | inl yes_x ↦ mem-cons c x (keep_if p cs) cs (mem-kept p cs c) (rw yes_x at m)
  | inr no_x ↦ Memᴰ.tail (mem-kept p cs c (rw no_x at m))
]

-- What is cited: exactly the sources that the text refers to, or the first three where it refers to none.
abbrev pub Chosen : Digits → Text → List Citation → List Citation → Type 0
Chosen digits text sources citations =
    (All (IsReferenced digits text) citations
      × ((c : Citation) → Memᴰ c citations → Memᴰ c sources)
      × ((c : Citation) → Memᴰ c sources → IsReferenced digits text c → Memᴰ c citations))
    ⊎ (All (λ c. any (λ n. c.number == n) (referenced_numbers digits text) ≡ false) sources
        × (citations ≡ take 3 sources))

or_first_three-Chosen :
    (digits : Digits) (text : Text) (sources kept : List Citation)
    → keep_if (λ c. any (λ n. c.number == n) (referenced_numbers digits text)) sources ≡ kept
    → Chosen digits text sources (or_first_three kept sources)
or_first_three-Chosen digits text sources [] e = inr (nothing_kept _ sources e, refl)
or_first_three-Chosen digits text sources (c ∷ cs) e =
    let p : Citation → Bool = λ x. any (λ n. x.number == n) (referenced_numbers digits text) in
    inl (
      subst (λ x. All (IsReferenced digits text) x) e (kept-All p sources),
      λ x m. mem-kept p sources x (subst (λ xs. Memᴰ x xs) (sym e) m),
      λ x m h. subst (λ xs. Memᴰ x xs) e (keep_if-mem p sources x m h),
    )

or_first_three-Numbers :
    (P : Citation → Type 0) (sources kept : List Citation)
    → All P sources
    → All P kept
    → (1 ≤ length sources)
    → All P (or_first_three kept sources) × (1 ≤ length (or_first_three kept sources))
or_first_three-Numbers P sources [] h k l =
    (All-take P 3 sources h, omega (arith, length-take 3 sources, l))
or_first_three-Numbers P sources (c ∷ cs) h k l = (k, omega arith)

-- An answer to a search that found something cites at least one passage; each citation bears the number of
-- the hit that it shows; and the citations are all the sources that the text refers to, and no others, or,
-- where it refers to none of the sources, the first three.
pub answer-Chosen :
    (digits : Digits) (stream : List Message → List Text) (prompt question : Text) (hit : SearchHit)
    (hits : List SearchHit) (history : List Message)
    → (1 ≤ length (answer digits stream prompt question (hit ∷ hits) history).citations)
      × All
          (Numbers 1 (hit ∷ hits))
          (answer digits stream prompt question (hit ∷ hits) history).citations
      × Chosen digits
          (answer digits stream prompt question (hit ∷ hits) history).text
          (sources_from 1 (hit ∷ hits))
          (answer digits stream prompt question (hit ∷ hits) history).citations
unfolding answer cited
answer-Chosen digits stream prompt question hit hits history =
    let sources = sources_from 1 (hit ∷ hits) in
    let text = (answer digits stream prompt question (hit ∷ hits) history).text in
    let p : Citation → Bool = λ c. any (λ n. c.number == n) (referenced_numbers digits text) in
    let numbered = sources_from-Numbers 1 (hit ∷ hits) in
    let (all_numbered, some_cited) =
      or_first_three-Numbers (Numbers 1 (hit ∷ hits)) sources (keep_if p sources) numbered
        (All-keep_if _ p sources numbered) (length_sources hit hits) in
    (some_cited, all_numbered, or_first_three-Chosen digits text sources (keep_if p sources) refl)
  where
    length_sources : (h : SearchHit) (hs : List SearchHit) → 1 ≤ length (sources_from 1 (h ∷ hs))
    length_sources h hs = unfold sources_from in omega arith

length-map : (f : Message → Message) (ms : List Message) → length (map f ms) ≡ length ms
length-map f [] = refl
length-map f (m ∷ ms) = omega (arith, length-map f ms)

-- The model is given two messages more than the history has, of which six count at most.
pub length-build_messages :
    (prompt question : Text) (hits : List SearchHit) (history : List Message)
    → length (build_messages prompt question hits history) ≡ min 6 (length history) + 2
unfolding build_messages
length-build_messages prompt question hits history =
    let past = take_last max_history_messages history in
    omega (
      arith,
      length-append (map replayed past) (_ ∷ []),
      length-map replayed past,
      length-drop (length history - max_history_messages) history,
    )
