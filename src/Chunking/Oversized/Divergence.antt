-- ===== src/Chunking/Oversized/Divergence.antt =====
-- Texts on which the recursion never ends: a part that is too long, with its separator at its end,
-- is split into itself and an empty part.
use secondbrain_ai.Prelude.{
  ℕ, zero, suc, ◌≤◌, ◌≡◌, ◌≢◌, refl, ap, true, false, Option, none, some, List, [], ◌∷◌, ◌++◌,
  arith, length, length-append, leb, All, All-append, All-mono,
}
use secondbrain_ai.Prelude.Text.{Text, starts_with, contains}
use secondbrain_ai.Chunking.Separators.{
  separators, split_from, split_keeping_separator, find_separator,
}
use secondbrain_ai.Chunking.Packing.{greedy_from, greedy_pack}
use secondbrain_ai.Chunking.Oversized.{refine, split_by, split_at_best_separator, split_oversized}

-- No character of the text is `d`.
abbrev pub Avoids : ℕ → Text → Type 0
Avoids d t = All (λ c. c ≢ d) t

contains-Avoids : (d : ℕ) (p t : Text) → Avoids d t → contains (d ∷ p) t ≡ false
unfolding contains starts_with
contains-Avoids d p [] h = refl
contains-Avoids d p (c ∷ t) h = ground (arith, contains-Avoids d p t h.1, h.0)

starts_with_space : (t : Text) → starts_with (32 ∷ []) (32 ∷ t) ≡ true
unfolding starts_with
starts_with_space t = refl

contains_space : (w t : Text) → contains (32 ∷ []) (w ++ 32 ∷ t) ≡ true
unfolding contains starts_with
contains_space [] t = refl
contains_space (c ∷ w) t = ground (arith, contains_space w t)

split_word : (w : Text) → Avoids 32 w → split_from (32 ∷ []) zero w ≡ w ∷ []
unfolding split_from starts_with
split_word [] h = refl
split_word (c ∷ w) h = ground (arith, split_word w h.1, h.0)

split_words :
    (w t : Text) → Avoids 32 w → Avoids 32 t → split_from (32 ∷ []) zero (w ++ 32 ∷ t) ≡ w ∷ t ∷ []
unfolding split_from starts_with
split_words [] t hw ht = ap (λ (ps : List Text). [] ∷ ps) (split_word t ht)
split_words (c ∷ w) t hw ht = ground (arith, split_words w t hw.1 ht, hw.0)

-- No line break, no space and none of the punctuation that can begin a separator.
abbrev pub IsPlain : ℕ → Type 0
IsPlain c = (c ≢ 10) × (c ≢ b'.') × (c ≢ b'!') × (c ≢ b'?') × (c ≢ b';') × (c ≢ b',') × (c ≢ 32)

-- One word: at least no separator is inside.
abbrev pub Word : Text → Type 0
Word t = All IsPlain t

Word-Avoids_space : (w : Text) → Word w → Avoids 32 w
Word-Avoids_space w h = All-mono IsPlain (λ c. c ≢ 32) w (λ c p. p.6) h

module _ (w t : Text) (hw : Word w) (ht : Word t) where
  words_avoid : (d : ℕ) → ((c : ℕ) → IsPlain c → c ≢ d) → 32 ≢ d → Avoids d (w ++ 32 ∷ t)
  words_avoid d plain ne =
      All-append (λ c. c ≢ d) w (32 ∷ t) (All-mono IsPlain (λ c. c ≢ d) w plain hw)
        (ne, All-mono IsPlain (λ c. c ≢ d) t plain ht)

  -- Two words are split at the space between them.
  find_separator_words : find_separator separators (w ++ 32 ∷ t) ≡ some (32 ∷ [])
  unfolding find_separator
  find_separator_words = rw (
    contains-Avoids 10 (10 ∷ []) _ (words_avoid 10 (λ c p. p.0) (omega arith)),
    contains-Avoids 10 [] _ (words_avoid 10 (λ c p. p.0) (omega arith)),
    contains-Avoids b'.' (32 ∷ []) _ (words_avoid b'.' (λ c p. p.1) (omega arith)),
    contains-Avoids b'!' (32 ∷ []) _ (words_avoid b'!' (λ c p. p.2) (omega arith)),
    contains-Avoids b'?' (32 ∷ []) _ (words_avoid b'?' (λ c p. p.3) (omega arith)),
    contains-Avoids b';' (32 ∷ []) _ (words_avoid b';' (λ c p. p.4) (omega arith)),
    contains-Avoids b',' (32 ∷ []) _ (words_avoid b',' (λ c p. p.5) (omega arith)),
    contains_space w t,
  )

  split_keeping_words : split_keeping_separator (w ++ 32 ∷ t) (32 ∷ []) ≡ (w ++ 32 ∷ []) ∷ t ∷ []
  unfolding split_keeping_separator
  split_keeping_words = rw (split_words w t (Word-Avoids_space w hw) (Word-Avoids_space t ht))

long_word : (size : ℕ) (w : Text) → size ≤ length w → leb (length (w ++ 32 ∷ [])) size ≡ false
long_word size w h = ground (arith, length-append w (32 ∷ []))

-- What the packing makes of an overlong word and a rest: the word with its space comes first.
packed_words :
    (size : ℕ) (w t : Text)
    → size ≤ length w
    → (rest : List Text) × (greedy_pack ((w ++ 32 ∷ []) ∷ t ∷ []) size ≡ (w ++ 32 ∷ []) ∷ rest)
unfolding greedy_pack greedy_from
packed_words size [] t h = (greedy_from size [] t, unfold greedy_from in ground arith)
packed_words size (c ∷ w) t h = (greedy_from size [] t, ground (arith, length-append w (32 ∷ [])))

module _ (size : ℕ) (w t : Text) (long : size ≤ length w) (hw : Word w) (ht : Word t) where
  refine_words :
      (again : Text → Option (List Text))
      → again (w ++ 32 ∷ []) ≡ none
      → refine again size (greedy_pack ((w ++ 32 ∷ []) ∷ t ∷ []) size) ≡ none
  unfolding refine
  refine_words again fails =
      let (rest, e) = packed_words size w t long in
      rw (e, refine) (rw (long_word size w long) (rw fails))

  split_by_words :
      (again : Text → Option (List Text))
      → again (w ++ 32 ∷ []) ≡ none
      → split_by again size (w ++ 32 ∷ t) (32 ∷ []) ≡ none
  unfolding split_by
  split_by_words again fails =
      rw (split_keeping_words w t hw ht, long_word size w long) (refine_words again fails)

-- The word with its space is split into itself and an empty part, so the recursion never ends.
overlong_diverges :
    (fuel size : ℕ) (w : Text)
    → size ≤ length w
    → Word w
    → split_at_best_separator fuel size (w ++ 32 ∷ []) ≡ none
unfolding split_at_best_separator
overlong_diverges zero size w long hw = refl
overlong_diverges (suc fuel) size w long hw =
    rw (find_separator_words w [] hw tt, split_at_best_separator)
      (split_by_words size w [] long hw tt _ (overlong_diverges fuel size w long hw))

overlong_pair_diverges :
    (fuel size : ℕ) (w t : Text)
    → size ≤ length w
    → Word w
    → Word t
    → split_at_best_separator fuel size (w ++ 32 ∷ t) ≡ none
unfolding split_at_best_separator
overlong_pair_diverges zero size w t long hw ht = refl
overlong_pair_diverges (suc fuel) size w t long hw ht =
    rw (find_separator_words w t hw ht, split_at_best_separator)
      (split_by_words size w t long hw ht _ (overlong_diverges fuel size w long hw))

-- A word of at least the chunk size, a space and another word: however deep the interpreter lets
-- the recursion go, `_split_oversized` ends in a `RecursionError`.
pub split_oversized_diverges :
    (fuel size overlap : ℕ) (w t : Text)
    → size ≤ length w
    → Word w
    → Word t
    → split_oversized fuel size overlap (w ++ 32 ∷ t) ≡ none
unfolding split_oversized
split_oversized_diverges fuel size overlap w t long hw ht =
    rw (overlong_pair_diverges fuel size w t long hw ht, split_oversized)
