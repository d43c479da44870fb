-- ===== src/Retrieval/Snippets/Window.antt =====
-- What `make_snippet` of backend/app/services/retrieval.py shows.
use secondbrain_ai.Prelude.{
  ℕ, ◌+◌, ◌-◌, ◌/◌, ◌≤◌, ◌≡◌, refl, sym, ap, subst, ◌∙◌, Bool, true, false, Option, none, some,
  List, ◌++◌, map, arith, length, length-append, length-take, length-drop, take, drop, any, All,
  ltb,
}
use secondbrain_ai.Prelude.Text.{Text, strip, starts_with, contains, length-strip}
use secondbrain_ai.Retrieval.Terms.{Unicode, significant_terms}
use secondbrain_ai.Retrieval.Snippets.{
  first_position, ellipsis, window_start, window_end, slice, snippet_at, make_snippet,
}
use mathlib.Core.List.{Memᴰ}
use secondbrain_ai.Retrieval.Snippets.Finding.{
  starts_with-take, length-starts_with, starts_with→contains, contains-drop, drop-take, drop-drop,
  map-take, map-drop, length-map, first_position-some, first_position-none,
}

length-ellipsis : (b : Bool) → length (ellipsis b) ≤ 1
length-ellipsis true = omega arith
length-ellipsis false = omega arith

length-snippet_at :
    (content : Text) (width : ℕ) (position : Option ℕ)
    → length (snippet_at content width position) ≤ width + 2
unfolding snippet_at
length-snippet_at content width none =
    let end = ellipsis (ltb width (length content)) in
    let text = take width content in
    omega (
      arith,
      length-append (strip text) end,
      length-strip text,
      length-take width content,
      length-ellipsis (ltb width (length content)),
    )
length-snippet_at content width (some position) =
    let start = window_start width position in
    let end = window_end width position content in
    let text = slice start end content in
    let before = ellipsis (ltb 0 start) in
    let after = ellipsis (ltb end (length content)) in
    let parts = length-append before (strip text ++ after) in
    let inner = length-append (strip text) after in
    let cut = length-take (end - start) (drop start content) in
    omega (
      arith,
      parts,
      inner,
      cut,
      length-strip text,
      length-ellipsis (ltb 0 start),
      length-ellipsis (ltb end (length content)),
    )

-- A snippet has at most two characters more than its width.
pub length-make_snippet :
    (u : Unicode) (content query : Text) (width : ℕ)
    → length (make_snippet u content query width) ≤ width + 2
unfolding make_snippet
length-make_snippet u content query width = length-snippet_at content width _

pub All-Mem {ℓ κ} : {A : Type ℓ} (P : A → Type κ) (x : A) (xs : List A) → All P xs → Memᴰ x xs → P x
All-Mem P x _ h (Memᴰ.head {xs = ys} e) = subst P (sym e) h.0
All-Mem P x _ h (Memᴰ.tail {xs = ys} m) = All-Mem P x ys h.1 m

module _ (content low term : Text) (width n : ℕ) (same_length : length low ≡ length content)
    (fits : length term ≤ width - width / 3) (found : starts_with term (drop n low) ≡ true)
    (short : width / 3 ≤ width) where
  contains-slice :
      contains term (slice (window_start width n) (window_end width n content) low) ≡ true
  contains-slice =
      let start = window_start width n in
      let size = window_end width n content - start in
      let k = n - start in
      let rest = drop start low in
      let back : start + k ≡ n = omega arith in
      let place : drop k rest ≡ drop n low = drop-drop k start low ∙ ap (λ x. drop x low) back in
      let room : length term ≤ length low - n =
        omega (arith, length-starts_with term (drop n low) found, length-drop n low) in
      let inside : starts_with term (take (size - k) (drop n low)) ≡ true =
        starts_with-take term (drop n low) (size - k) found
          (omega (arith, room, same_length, fits, short)) in
      let moved : drop k (take size rest) ≡ take (size - k) (drop n low) =
        drop-take k size rest ∙ ap (λ x. take (size - k) x) place in
      contains-drop term (take size rest) k (
        starts_with→contains term (drop k (take size rest))
          (subst (λ x. starts_with term x ≡ true) (sym moved) inside))

-- The text of the snippet, before the spaces at its ends are cut, shows a term of the query.
abbrev pub Shows : Unicode → Text → Text → ℕ → Type 0
Shows u content query width =
    (before after window term : Text) × (make_snippet u content query width
      ≡ before ++ (strip window ++ after))
    × Memᴰ term (significant_terms u query)
    × (contains term (u.lower window) ≡ true)

-- If `str.lower` maps character by character, some term of the query occurs in the lower-case content
-- and every term fits in two thirds of the width, then the snippet is cut from a window of the content
-- in which a term of the query occurs.
pub make_snippet-Shows :
    (u : Unicode) (lower_char : ℕ → ℕ)
    → ((t : Text) → u.lower t ≡ map lower_char t)
    → (content query : Text) (width : ℕ)
    → All (λ term. length term ≤ width - width / 3) (significant_terms u query)
    → any (λ term. contains term (u.lower content)) (significant_terms u query) ≡ true
    → Shows u content query width
unfolding make_snippet snippet_at
make_snippet-Shows u lower_char pointwise content query width fit occurs =
    at (first_position (significant_terms u query) (u.lower content)) refl
  where
    snippet_of :
        {p : Option ℕ}
        → first_position (significant_terms u query) (u.lower content) ≡ p
        → make_snippet u content query width ≡ snippet_at content width p
    snippet_of e = ap (snippet_at content width) e

    at :
        (p : Option ℕ)
        → first_position (significant_terms u query) (u.lower content) ≡ p
        → Shows u content query width
    at none e =
        let absent = first_position-none (significant_terms u query) (u.lower content) e in cc
    at (some n) e =
        let start = window_start width n in
        let end = window_end width n content in
        let window = slice start end content in
        let (term, mem, found) =
          first_position-some (significant_terms u query) (u.lower content) n e in
        let low = map lower_char content in
        let inside : contains term (slice start end low) ≡ true =
          contains-slice content low term width n (length-map lower_char content)
            (All-Mem _ term (significant_terms u query) fit mem)
            (subst (λ x. starts_with term (drop n x) ≡ true) (pointwise content) found)
            (omega arith) in
        let lowered : u.lower window ≡ slice start end low =
          pointwise window
          ∙ map-take lower_char (end - start) (drop start content)
          ∙ ap (λ x. take (end - start) x) (map-drop lower_char start content) in
        (
          ellipsis (ltb 0 start),
          ellipsis (ltb end (length content)),
          window,
          term,
          snippet_of e,
          mem,
          subst (λ x. contains term x ≡ true) (sym lowered) inside,
        )
