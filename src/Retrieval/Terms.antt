-- ===== src/Retrieval/Terms.antt =====
-- The words of a query in backend/app/services/retrieval.py.
use secondbrain_ai.Prelude.{
  ℕ, Bool, not, ◌&&◌, ◌||◌, List, [], ◌∷◌, ◌++◌, length, keep_if, any, ltb, ◌==◌, if◌then◌else◌,
}
use secondbrain_ai.Prelude.Text.{Text, codes, text_eq}

-- What the interpreter's Unicode tables say: `str.lower`, and the characters of `\w`.
pub record Unicode : Type 0 where
  pub lower : Text → Text
  pub is_word : ℕ → Bool

-- `_STOP_WORDS`
abbrev pub stop_words : List Text
stop_words =
    codes "a"
    ∷ codes "an"
    ∷ codes "and"
    ∷ codes "are"
    ∷ codes "as"
    ∷ codes "at"
    ∷ codes "be"
    ∷ codes "by"
    ∷ codes "for"
    ∷ codes "from"
    ∷ codes "has"
    ∷ codes "have"
    ∷ codes "in"
    ∷ codes "is"
    ∷ codes "it"
    ∷ codes "its"
    ∷ codes "of"
    ∷ codes "on"
    ∷ codes "or"
    ∷ codes "that"
    ∷ codes "the"
    ∷ codes "to"
    ∷ codes "was"
    ∷ codes "were"
    ∷ codes "will"
    ∷ codes "with"
    ∷ codes "what"
    ∷ codes "where"
    ∷ codes "when"
    ∷ codes "how"
    ∷ codes "do"
    ∷ codes "does"
    ∷ codes "did"
    ∷ codes "i"
    ∷ codes "my"
    ∷ codes "me"
    ∷ []

-- A character of `[\w'-]`.
abbrev pub in_term : Unicode → ℕ → Bool
in_term u c = u.is_word c || c == 39 || c == 45

-- The longest front of the text in the class, put before the terms of the rest.
abbrev pub next_term : Text → List Text → List Text
next_term [] terms = terms
next_term (c ∷ run) terms = (c ∷ run) ∷ terms

-- `re.findall(r"[\w'-]+", text)`, with the run that stands before the text.
unfoldable pub find_terms : Unicode → Text → Text → List Text
find_terms u run [] = next_term run []
find_terms u run (c ∷ text) =
    let longer = find_terms u (run ++ c ∷ []) text in
    let after = find_terms u [] text in if in_term u c then longer else next_term run after

abbrev pub is_significant : Text → Bool
is_significant term = ltb 1 (length term) && not (any (λ w. text_eq term w) stop_words)

abbrev pub or_else : List Text → List Text → List Text
or_else [] ts = ts
or_else (s ∷ ss) ts = s ∷ ss

-- `_significant_terms`
unfoldable pub significant_terms : Unicode → Text → List Text
unfolding find_terms text_eq
significant_terms u text =
    let terms = find_terms u [] (u.lower text) in or_else (keep_if is_significant terms) terms
