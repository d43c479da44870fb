-- ===== src/Parsing/Paragraphs/Ink.antt =====
-- What is left of a text when its space, or more, is left out.
use secondbrain_ai.Prelude.{
  ℕ, ◌≡◌, refl, sym, subst, ◌∙◌, inl, inr, Bool, true, false, ◌&&◌, List, [], ◌∷◌, ◌++◌, flatten,
  arith, keep_if, Bool-cases, append-nil, ◌==◌,
}
use secondbrain_ai.Prelude.Text.{
  Text, is_space, lstrip, rstrip, push_left, strip, join, onto_head, is_line_break, splitlines_from,
  splitlines,
}

-- A test that no space passes.
abbrev pub Inked : (ℕ → Bool) → Type 0
Inked p = (c : ℕ) → is_space c ≡ true → p c ≡ false

pub keep_if-append {ℓ} :
    {A : Type ℓ} (p : A → Bool) (xs ys : List A)
    → keep_if p (xs ++ ys) ≡ keep_if p xs ++ keep_if p ys
keep_if-append p [] ys = refl
keep_if-append p (x ∷ xs) ys = ground (arith, keep_if-append p xs ys)

module _ (p : ℕ → Bool) (inked : Inked p) where
  pub keep_if-lstrip : (t : Text) → keep_if p (lstrip t) ≡ keep_if p t
  unfolding lstrip
  keep_if-lstrip [] = refl
  keep_if-lstrip (c ∷ t) = ground (arith, keep_if-lstrip t, inked c)

  keep_if-push_left : (c : ℕ) (t : Text) → keep_if p (push_left c t) ≡ keep_if p (c ∷ t)
  unfolding push_left is_space
  keep_if-push_left c [] = elim (Bool-cases (is_space c)) [
    | inl s ↦ rw (inked c s) (rw s)
    | inr n ↦ rw n
  ]
  keep_if-push_left c (d ∷ t) = refl

  pub keep_if-rstrip : (t : Text) → keep_if p (rstrip t) ≡ keep_if p t
  unfolding rstrip
  keep_if-rstrip [] = refl
  keep_if-rstrip (c ∷ t) = keep_if-push_left c (rstrip t) ∙ ground (arith, keep_if-rstrip t)

  -- Space at the ends has no ink.
  pub keep_if-strip : (t : Text) → keep_if p (strip t) ≡ keep_if p t
  unfolding strip
  keep_if-strip t = keep_if-rstrip (lstrip t) ∙ keep_if-lstrip t

  -- The ink of lines joined by line feeds is that of the lines.
  pub keep_if-join : (ls : List Text) → keep_if p (join (10 ∷ []) ls) ≡ keep_if p (flatten ls)
  unfolding join flatten is_space
  keep_if-join [] = refl
  keep_if-join (l ∷ []) = rw (append-nil l)
  keep_if-join (l ∷ m ∷ r) =
      let feed : p 10 ≡ false = inked 10 refl in
      rw (
        keep_if-append p l (10 ∷ join (10 ∷ []) (m ∷ r)),
        keep_if-append p l (flatten (m ∷ r)),
        feed,
        keep_if-join (m ∷ r),
      )

  pub keep_if-onto_head :
      (c : ℕ) (ts : List Text) → keep_if p (flatten (onto_head c ts)) ≡ keep_if p (c ∷ flatten ts)
  unfolding flatten
  keep_if-onto_head c [] = refl
  keep_if-onto_head c (t ∷ ts) = refl

  break_space : (c : ℕ) → is_line_break c ≡ true → is_space c ≡ true
  unfolding is_line_break is_space
  break_space c h = ground arith

  keep_if-splitlines_from :
      (cr : Bool) (t : Text) → keep_if p (flatten (splitlines_from cr t)) ≡ keep_if p t
  unfolding flatten splitlines_from is_space
  keep_if-splitlines_from cr [] = refl
  keep_if-splitlines_from cr (c ∷ t) =
      let ih = keep_if-splitlines_from (c == 13) t in
      elim (Bool-cases (cr && c == 10)) [
        | inl feed ↦
            let ten : c ≡ 10 = ground arith in
            rw (inked c (subst (λ x. is_space x ≡ true) (sym ten) refl)) (rw feed ih)
        | inr other ↦ elim (Bool-cases (is_line_break c)) [
          | inl ends ↦ rw (inked c (break_space c ends)) (rw (other, ends) ih)
          | inr within ↦
              rw (other, within) (keep_if-onto_head c (splitlines_from (c == 13) t) ∙ ground arith)
        ]
      ]

  -- Lines lose nothing but the breaks between them.
  pub keep_if-splitlines : (t : Text) → keep_if p (flatten (splitlines t)) ≡ keep_if p t
  unfolding splitlines
  keep_if-splitlines t = keep_if-splitlines_from false t
