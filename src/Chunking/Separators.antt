-- ===== src/Chunking/Separators.antt =====
-- `_SEPARATORS`, `str.split` and `_split_keeping_separator`.
use secondbrain_ai.Prelude.{
  ℕ, zero, suc, ◌-◌, ◌≡◌, refl, sym, ap, ◌∙◌, inl, inr, true, false, Option, none, some, List, [],
  ◌∷◌, ◌++◌, flatten, arith, length, drop, if◌then◌else◌, Bool-cases,
}
use secondbrain_ai.Prelude.Text.{Text, codes, nonempty, starts_with, contains, starts_with→append}

-- `_SEPARATORS`, most natural first.
abbrev pub separators : List Text
separators =
    (10 ∷ 10 ∷ [])
    ∷ (10 ∷ [])
    ∷ codes ". "
    ∷ codes "! "
    ∷ codes "? "
    ∷ codes "; "
    ∷ codes ", "
    ∷ codes " "
    ∷ []

-- A character in front of the first part.
abbrev cons_head : ℕ → List Text → List Text
cons_head c [] = (c ∷ []) ∷ []
cons_head c (p ∷ ps) = (c ∷ p) ∷ ps

-- `str.split` from the left; the number counts the characters of a matched separator still to skip.
unfoldable pub split_from : Text → ℕ → Text → List Text
unfolding starts_with
split_from sep k [] = [] ∷ []
split_from sep (suc k) (c ∷ t) = split_from sep k t
split_from sep zero (c ∷ t) = elim (starts_with sep (c ∷ t)) [
  | true ↦ [] ∷ split_from sep (length sep - 1) t
  | false ↦ cons_head c (split_from sep zero t)
]

-- `text.split(sep)`
unfoldable pub split_on : Text → Text → List Text
unfolding split_from
split_on sep t = split_from sep zero t

-- `[part + separator for part in parts[:-1]] + [parts[-1]]`
abbrev pub keep_separator : Text → List Text → List Text
keep_separator sep [] = []
keep_separator sep (p ∷ []) = p ∷ []
keep_separator sep (p ∷ q ∷ r) = (p ++ sep) ∷ keep_separator sep (q ∷ r)

unfoldable pub split_keeping_separator : Text → Text → List Text
unfolding split_on
split_keeping_separator t sep = keep_separator sep (split_on sep t)

-- The first separator that the text contains: where the loop over `_SEPARATORS` does not `continue`.
unfoldable pub find_separator : List Text → Text → Option Text
unfolding contains
find_separator [] t = none
find_separator (sep ∷ seps) t = if contains sep t then some sep else find_separator seps t

flatten-cons_head :
    (sep : Text) (c : ℕ) (p : Text) (ps : List Text)
    → flatten (keep_separator sep (cons_head c (p ∷ ps)))
      ≡ c ∷ flatten (keep_separator sep (p ∷ ps))
unfolding flatten
flatten-cons_head sep c p [] = refl
flatten-cons_head sep c p (q ∷ r) = refl

-- There is always a first part.
split_from_cons :
    (sep : Text) (k : ℕ) (t : Text) → (p : Text) × (ps : List Text) × (split_from sep k t ≡ p ∷ ps)
unfolding split_from
split_from_cons sep k [] = ([], [], refl)
split_from_cons sep (suc k) (c ∷ t) = split_from_cons sep k t
split_from_cons sep zero (c ∷ t) = elim (Bool-cases (starts_with sep (c ∷ t))) [
  | inl hit ↦ ([], split_from sep (length sep - 1) t, rw (hit, split_from))
  | inr miss ↦
      let (p, ps, e) = split_from_cons sep zero t in (c ∷ p, ps, rw (miss, split_from) (rw e))
]

flatten_hit :
    (sep : Text) (k : ℕ) (t : Text)
    → flatten (keep_separator sep ([] ∷ split_from sep k t))
      ≡ sep ++ flatten (keep_separator sep (split_from sep k t))
unfolding flatten
flatten_hit sep k t = let (p, ps, e) = split_from_cons sep k t in rw e

flatten_miss :
    (sep : Text) (c : ℕ) (t : Text)
    → flatten (keep_separator sep (cons_head c (split_from sep zero t)))
      ≡ c ∷ flatten (keep_separator sep (split_from sep zero t))
flatten_miss sep c t =
    let (p, ps, e) = split_from_cons sep zero t in rw e (flatten-cons_head sep c p ps)

starts_with→tail :
    (sep : Text) (c : ℕ) (t : Text)
    → nonempty sep ≡ true
    → starts_with sep (c ∷ t) ≡ true
    → sep ++ drop (length sep - 1) t ≡ c ∷ t
starts_with→tail [] c t h hit = cc
starts_with→tail (d ∷ sep) c t h hit =
    let e : suc (length sep) - 1 ≡ length sep = omega arith in
    rw e (sym (starts_with→append (d ∷ sep) (c ∷ t) hit))

flatten-split_from :
    (sep : Text) (k : ℕ) (t : Text)
    → nonempty sep ≡ true
    → flatten (keep_separator sep (split_from sep k t)) ≡ drop k t
unfolding split_from flatten
flatten-split_from sep zero [] h = refl
flatten-split_from sep (suc k) [] h = refl
flatten-split_from sep (suc k) (c ∷ t) h = flatten-split_from sep k t h
flatten-split_from sep zero (c ∷ t) h = elim (Bool-cases (starts_with sep (c ∷ t))) [
  | inl hit ↦
      rw (hit, split_from)
        (flatten_hit sep (length sep - 1) t
          ∙ ap (λ (u : Text). sep ++ u) (flatten-split_from sep (length sep - 1) t h)
          ∙ starts_with→tail sep c t h hit)
  | inr miss ↦
      rw (miss, split_from)
        (flatten_miss sep c t ∙ ap (λ (u : Text). c ∷ u) (flatten-split_from sep zero t h))
]

-- Splitting without discarding the separator loses nothing: the parts concatenate to the text.
pub split_keeping_separator_roundtrip :
    (t sep : Text) → nonempty sep ≡ true → flatten (split_keeping_separator t sep) ≡ t
unfolding split_keeping_separator
split_keeping_separator_roundtrip t sep h = flatten-split_from sep zero t h
