-- ===== src/Retrieval/Snippets.antt =====
-- `make_snippet` of backend/app/services/retrieval.py.
pub mod Finding
pub mod Window
use secondbrain_ai.Prelude.{
  ℕ, ◌+◌, ◌-◌, ◌/◌, ◌≤◌, suc, Bool, true, false, Option, none, some, List, [], ◌∷◌, ◌++◌, length,
  take, drop, min, ltb, if◌then◌else◌,
}
use secondbrain_ai.Prelude.Text.{Text, strip, starts_with}
use secondbrain_ai.Retrieval.Terms.{Unicode, significant_terms}

-- `text.find(p)`, with none for -1.
unfoldable pub find : Text → Text → Option ℕ
unfolding starts_with
find p [] = if starts_with p [] then some 0 else none
find p (c ∷ t) =
    let later = find p t in
    if starts_with p (c ∷ t) then some 0 else elim later [ some n ↦ some (suc n) | none ↦ none ]

-- The position of the first term that occurs.
unfoldable pub first_position : List Text → Text → Option ℕ
unfolding find
first_position [] lowered = none
first_position (term ∷ terms) lowered =
    let others = first_position terms lowered in
    elim (find term lowered) [ some n ↦ some n | none ↦ others ]

abbrev pub ellipsis : Bool → Text
ellipsis true = 0x2026 ∷ []
ellipsis false = []

-- The window of the text around a position, and its two ends.
abbrev pub window_start : ℕ → ℕ → ℕ
window_start width position = position - width / 3

abbrev pub window_end : ℕ → ℕ → Text → ℕ
window_end width position content = min (length content) (window_start width position + width)

-- `content[start:end]`
abbrev pub slice : ℕ → ℕ → Text → Text
slice start end content = take (end - start) (drop start content)

abbrev pub snippet_at : Text → ℕ → Option ℕ → Text
unfolding strip
snippet_at content width none = strip (take width content) ++ ellipsis (ltb width (length content))
snippet_at content width (some position) =
    let start = window_start width position in
    let end = window_end width position content in
    ellipsis (ltb 0 start)
    ++ (strip (slice start end content) ++ ellipsis (ltb end (length content)))

-- `make_snippet`
unfoldable pub make_snippet : Unicode → Text → Text → ℕ → Text
unfolding first_position significant_terms snippet_at
make_snippet u content query width =
    snippet_at content width (first_position (significant_terms u query) (u.lower content))
