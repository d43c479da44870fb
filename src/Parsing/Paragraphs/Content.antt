-- ===== src/Parsing/Paragraphs/Content.antt =====
-- The paragraphs of a text: within the limit, and with all of the text but space.
use secondbrain_ai.Prelude.{
  ℕ, zero, suc, ◌<◌, ◌≤◌, ◌≡◌, refl, sym, ap, subst, append_assoc, ◌∙◌, inl, inr, Bool, true, List,
  [], ◌∷◌, ◌++◌, map, flatten, arith, keep_if, take, drop, length, ltb, ◌==◌, if◌then◌else◌,
  Bool-cases, All, All-append, length-drop, length-take, take-append-drop, append-nil,
}
use secondbrain_ai.Prelude.Text.{Text, is_space, strip, nonempty}
use secondbrain_ai.Parsing.Paragraphs.{
  max_block_chars, gap, split_gaps, cut_long, pieces_of, split_paragraphs_within, split_paragraphs,
}
use secondbrain_ai.Parsing.Paragraphs.Ink.{Inked, keep_if-append, keep_if-strip, keep_if-onto_head}

max_block_chars_pos : 0 < max_block_chars
unfolding max_block_chars
max_block_chars_pos = omega arith

-- A block of text that can be cited.
abbrev pub Citable : ℕ → Text → Type 0
Citable limit t = (length t ≤ limit) × (nonempty t ≡ true)

nonempty-take : (n : ℕ) (t : Text) → 0 < n → n < length t → nonempty (take n t) ≡ true
nonempty-take zero t h k = absurd (omega arith)
nonempty-take (suc n) [] h k = absurd (omega arith)
nonempty-take (suc n) (c ∷ t) h k = refl

shorter :
    (n : ℕ) (t : Text) (fuel : ℕ)
    → 0 < n
    → length t < suc fuel
    → n < length t
    → length (drop n t) < fuel
shorter n t fuel h f k = omega (arith, length-drop n t)

flatten_rest : (t : Text) → flatten (if nonempty t then t ∷ [] else []) ≡ t
unfolding flatten
flatten_rest [] = refl
flatten_rest (c ∷ t) = append-nil (c ∷ t)

pub flatten-append : (xs ys : List Text) → flatten (xs ++ ys) ≡ flatten xs ++ flatten ys
unfolding flatten
flatten-append [] ys = refl
flatten-append (x ∷ xs) ys =
    rw (flatten-append xs ys) (sym (append_assoc x (flatten xs) (flatten ys)))

cut_long-Citable :
    (fuel limit : ℕ) (t : Text) → 0 < limit → All (Citable limit) (cut_long fuel limit t)
unfolding cut_long
cut_long-Citable zero limit t h = tt
cut_long-Citable (suc fuel) limit t h = elim (Bool-cases (ltb limit (length t))) [
  | inl long ↦ rw long (
    (omega (arith, length-take limit t), nonempty-take limit t h (ground arith)),
    cut_long-Citable fuel limit (drop limit t) h,
  )
  | inr short ↦ elim (Bool-cases (nonempty t)) [
    | inl filled ↦ rw (short, filled) ((ground arith, filled), tt)
    | inr blank ↦ rw (short, blank) tt
  ]
]

flatten-cut_long :
    (fuel limit : ℕ) (t : Text) → 0 < limit → length t < fuel → flatten (cut_long fuel limit t) ≡ t
unfolding cut_long flatten
flatten-cut_long zero limit t h f = absurd (omega arith)
flatten-cut_long (suc fuel) limit t h f = elim (Bool-cases (ltb limit (length t))) [
  | inl long ↦ rw long (
      ap (λ (u : Text). take limit t ++ u)
        (flatten-cut_long fuel limit (drop limit t) h (shorter limit t fuel h f (ground arith)))
      ∙ take-append-drop limit t)
  | inr short ↦ rw short (flatten_rest t)
]

split_gaps-Citable :
    (limit : ℕ) (ps : List Text)
    → 0 < limit
    → All (Citable limit) (flatten (map (pieces_of limit) ps))
unfolding flatten pieces_of
split_gaps-Citable limit [] h = tt
split_gaps-Citable limit (p ∷ ps) h =
    All-append (Citable limit) (pieces_of limit p) _
      (cut_long-Citable (suc (length (strip p))) limit (strip p) h) (split_gaps-Citable limit ps h)

flatten-pieces_of : (limit : ℕ) (q : Text) → 0 < limit → flatten (pieces_of limit q) ≡ strip q
unfolding pieces_of
flatten-pieces_of limit q h =
    flatten-cut_long (suc (length (strip q))) limit (strip q) h (omega arith)

module _ (p : ℕ → Bool) (inked : Inked p) where
  keep_if-gap : (t : Text) → keep_if p (drop (gap t) t) ≡ keep_if p t
  unfolding gap
  keep_if-gap [] = refl
  keep_if-gap (c ∷ t) =
      let ih = keep_if-gap t in
      elim (Bool-cases (is_space c)) [
        | inr ink ↦ rw ink refl
        | inl space ↦ elim (Bool-cases (ltb 0 (gap t))) [
          | inl more ↦ rw (inked c space) (rw (space, more) ih)
          | inr last ↦ elim (Bool-cases (c == 10)) [
            | inl feed ↦ rw (inked c space) (rw (space, last, feed) refl)
            | inr plain ↦ rw (space, last, plain) refl
          ]
        ]
      ]

  keep_if-split_gaps :
      (k : ℕ) (t : Text) → keep_if p (flatten (split_gaps k t)) ≡ keep_if p (drop k t)
  unfolding split_gaps flatten is_space
  keep_if-split_gaps zero [] = refl
  keep_if-split_gaps (suc k) [] = refl
  keep_if-split_gaps (suc k) (c ∷ t) = keep_if-split_gaps k t
  keep_if-split_gaps zero (c ∷ t) =
      let plain = keep_if-onto_head p inked c (split_gaps zero t) in
      let ih = keep_if-split_gaps zero t in
      elim (Bool-cases (c == 10)) [
        | inr other ↦ rw other (plain ∙ ground arith)
        | inl feed ↦ elim (Bool-cases (ltb 0 (gap t))) [
          | inr close ↦ rw (feed, close) (plain ∙ ground arith)
          | inl apart ↦
              let ten : c ≡ 10 = ground arith in
              rw (inked c (subst (λ x. is_space x ≡ true) (sym ten) refl))
                (rw (feed, apart) (keep_if-split_gaps (gap t) t ∙ keep_if-gap t))
        ]
      ]

  keep_if-pieces :
      (limit : ℕ) (ps : List Text)
      → 0 < limit
      → keep_if p (flatten (flatten (map (pieces_of limit) ps))) ≡ keep_if p (flatten ps)
  unfolding flatten
  keep_if-pieces limit [] h = refl
  keep_if-pieces limit (q ∷ ps) h = rw (
    flatten-append (pieces_of limit q) (flatten (map (pieces_of limit) ps)),
    keep_if-append p (flatten (pieces_of limit q)) (flatten (flatten (map (pieces_of limit) ps))),
    keep_if-append p q (flatten ps),
    keep_if-pieces limit ps h,
    flatten-pieces_of limit q h,
    keep_if-strip p inked q,
  )

  -- The paragraphs have every character of the text that is no space, in their order.
  pub keep_if-split_paragraphs : (t : Text) → keep_if p (flatten (split_paragraphs t)) ≡ keep_if p t
  unfolding split_paragraphs split_paragraphs_within
  keep_if-split_paragraphs t =
      keep_if-pieces max_block_chars (split_gaps zero t) max_block_chars_pos
      ∙ keep_if-split_gaps zero t

-- No paragraph is blank or longer than the limit.
pub split_paragraphs-Citable : (t : Text) → All (Citable max_block_chars) (split_paragraphs t)
unfolding split_paragraphs split_paragraphs_within
split_paragraphs-Citable t =
    split_gaps-Citable max_block_chars (split_gaps zero t) max_block_chars_pos
