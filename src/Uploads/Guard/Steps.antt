-- ===== src/Uploads/Guard/Steps.antt =====
-- One round of `_guarded` of backend/app/services/uploads/service.py, against the bytes so far.
use secondbrain_ai.Prelude.{
  ℕ, ◌+◌, ◌-◌, ◌≤◌, ◌<◌, zero, suc, ◌≡◌, refl, sym, ap, ◌∙◌, ◌⊎◌, inl, inr, Bool, true, false, ◌||◌,
  List, [], ◌∷◌, ◌++◌, append-nil, arith, length, length-append, length-take, take, ltb, leb,
  Bool-cases, if◌then◌else◌,
}
use secondbrain_ai.Prelude.Outcome.{Outcome, ok, raised}
use secondbrain_ai.FileTypes.{FileType, signature_matches, probe_bytes}
use secondbrain_ai.Uploads.Guard.{
  UploadError, unsupported_media_type, Guard, guard_step, no_signatures,
}

take_nil : (n : ℕ) → take {A = ℕ} n [] ≡ []
take_nil zero = refl
take_nil (suc n) = refl

take-append : (n : ℕ) (xs ys : List ℕ) → take n (xs ++ ys) ≡ take n xs ++ take (n - length xs) ys
take-append n [] ys =
    let e : n ≡ n - 0 = omega arith in
    ap (λ m. take m ys) e ∙ ap (λ z. z ++ take (n - 0) ys) (sym (take_nil n))
take-append zero (x ∷ xs) ys =
    let e : 0 ≡ 0 - suc (length xs) = omega arith in ap (λ m. take m ys) e
take-append (suc n) (x ∷ xs) ys =
    let e : n - length xs ≡ suc n - suc (length xs) = omega arith in
    ap (λ z. x ∷ z) (take-append n xs ys ∙ ap (λ m. take n xs ++ take m ys) e)

take_all : (n : ℕ) (xs : List ℕ) → length xs ≤ n → take n xs ≡ xs
take_all n [] h = take_nil n
take_all zero (x ∷ xs) h = absurd (omega (arith, h))
take_all (suc n) (x ∷ xs) h = ap (λ z. x ∷ z) (take_all n xs (omega (arith, h)))

no_signatures_lem :
    (t : FileType) (head : List ℕ) → no_signatures t ≡ true → signature_matches t head ≡ true
unfolding signature_matches
no_signatures_lem t head h = ground arith

-- The variables after some bytes: verified, or with the first bytes in hand.
unfoldable pub Tracks : FileType → List ℕ → Guard → Type 0
unfolding signature_matches
Tracks t before g =
    (g.total ≡ length before)
    × (((g.checked ≡ true)
          × (signature_matches t (take probe_bytes before) ≡ true)
          × ((probe_bytes ≤ length before) ⊎ (no_signatures t ≡ true)))
        ⊎ ((g.checked ≡ false) × (g.head ≡ take probe_bytes before)))

-- What was seen rules the stream out: too much, or other first bytes, whatever follows.
unfoldable pub RuledOut : ℕ → FileType → List ℕ → Type 0
RuledOut limit t before =
    (limit < length before)
    ⊎ ((rest : List ℕ) → signature_matches t (take probe_bytes (before ++ rest)) ≡ false)

unfoldable pub Stepped : ℕ → FileType → List ℕ → Outcome UploadError Guard → Type 0
unfolding Tracks RuledOut
Stepped limit t before (ok g) = Tracks t before g × (length before ≤ limit)
Stepped limit t before (raised e) = RuledOut limit t before

take_head :
    (before chunk : List ℕ)
    → take probe_bytes before ++ take (probe_bytes - length (take probe_bytes before)) chunk
      ≡ take probe_bytes (before ++ chunk)
take_head before chunk =
    let e : probe_bytes - length (take probe_bytes before) ≡ probe_bytes - length before =
      omega (arith, length-take probe_bytes before) in
    ap (λ m. take probe_bytes before ++ take m chunk) e ∙ sym (take-append probe_bytes before chunk)

take_full :
    (xs ys : List ℕ) → probe_bytes ≤ length xs → take probe_bytes (xs ++ ys) ≡ take probe_bytes xs
take_full xs ys h =
    let e : probe_bytes - length xs ≡ 0 = omega (arith, h) in
    take-append probe_bytes xs ys
    ∙ ap (λ m. take probe_bytes xs ++ take m ys) e
    ∙ append-nil (take probe_bytes xs)

-- A stream without signatures to check, or with the first bytes in hand, is judged by them.
judged :
    (t : FileType) (before rest : List ℕ) (b : Bool)
    → (probe_bytes ≤ length before) ⊎ (no_signatures t ≡ true)
    → signature_matches t (take probe_bytes before) ≡ b
    → signature_matches t (take probe_bytes (before ++ rest)) ≡ b
judged t before rest b (inl enough) e = ap (signature_matches t) (take_full before rest enough) ∙ e
judged t before rest b (inr none_known) e =
    no_signatures_lem t (take probe_bytes (before ++ rest)) none_known
    ∙ sym (no_signatures_lem t (take probe_bytes before) none_known)
    ∙ e

longer :
    (t : FileType) (before chunk : List ℕ)
    → (probe_bytes ≤ length before) ⊎ (no_signatures t ≡ true)
    → (probe_bytes ≤ length (before ++ chunk)) ⊎ (no_signatures t ≡ true)
longer t before chunk (inl enough) = inl (omega (arith, enough, length-append before chunk))
longer t before chunk (inr none_known) = inr none_known

module _ (limit : ℕ) (t : FileType) (g : Guard) (before chunk : List ℕ)
    (total : g.total ≡ length before) where
  all_bytes : List ℕ
  all_bytes = before ++ chunk

  new_total : g.total + length chunk ≡ length (before ++ chunk)
  new_total = omega (arith, total, length-append before chunk)

  checked_step :
      g.checked ≡ true
      → signature_matches t (take probe_bytes before) ≡ true
      → (probe_bytes ≤ length before) ⊎ (no_signatures t ≡ true)
      → Stepped limit t (before ++ chunk) (guard_step limit t g chunk)
  unfolding Stepped guard_step Tracks RuledOut
  checked_step checked matches enough = elim (Bool-cases (ltb limit (g.total + length chunk))) [
    | inl over ↦ rw (guard_step, over) (inl (ground (arith, new_total)))
    | inr within ↦
        rw (guard_step, within, checked)
          (
            (
              new_total,
              inl (refl, judged t before chunk true enough matches, longer t before chunk enough),
            ),
            ground (arith, new_total),
          )
  ]

  enough_bytes :
      leb probe_bytes (length (take probe_bytes (before ++ chunk))) || no_signatures t ≡ true
      → (probe_bytes ≤ length (before ++ chunk)) ⊎ (no_signatures t ≡ true)
  enough_bytes full = elim (Bool-cases (no_signatures t)) [
    | inl none_known ↦ inr none_known
    | inr some_known ↦ inl (ground (arith, length-take probe_bytes (before ++ chunk)))
  ]

  filled :
      length (before ++ chunk) ≤ limit
      → Stepped limit t (before ++ chunk) (
          if leb probe_bytes (length (take probe_bytes (before ++ chunk))) || no_signatures t
          then (if signature_matches t (take probe_bytes (before ++ chunk))
              then ok (record {
                total = g.total + length chunk;
                head = take probe_bytes (before ++ chunk);
                checked = true;
              })
              else raised unsupported_media_type)
          else ok (record {
            total = g.total + length chunk;
            head = take probe_bytes (before ++ chunk);
            checked = false;
          }))
  unfolding Stepped Tracks RuledOut
  filled within =
      elim (Bool-cases
        (leb probe_bytes (length (take probe_bytes (before ++ chunk))) || no_signatures t)) [
          | inr short ↦ rw short ((new_total, inr (refl, refl)), within)
          | inl full ↦
              elim (Bool-cases (signature_matches t (take probe_bytes (before ++ chunk)))) [
                | inl matches ↦
                    rw (full, matches) ((new_total, inl (refl, matches, enough_bytes full)), within)
                | inr differs ↦
                    rw (full, differs)
                      (inr
                        (λ rest. judged t (before ++ chunk) rest false (enough_bytes full) differs))
              ]
        ]

  unchecked_step :
      g.checked ≡ false
      → g.head ≡ take probe_bytes before
      → Stepped limit t (before ++ chunk) (guard_step limit t g chunk)
  unfolding Stepped guard_step Tracks RuledOut
  unchecked_step unchecked head =
      let new_head : g.head ++ take (probe_bytes - length g.head) chunk
          ≡ take probe_bytes (before ++ chunk) =
        ap (λ h. h ++ take (probe_bytes - length h) chunk) head ∙ take_head before chunk in
      elim (Bool-cases (ltb limit (g.total + length chunk))) [
        | inl over ↦ rw (guard_step, over) (inl (ground (arith, new_total)))
        | inr within ↦
            rw (guard_step, within, unchecked, new_head) (filled (ground (arith, new_total)))
      ]

pub guard_step-Stepped :
    (limit : ℕ) (t : FileType) (g : Guard) (before chunk : List ℕ)
    → Tracks t before g
    → Stepped limit t (before ++ chunk) (guard_step limit t g chunk)
unfolding Tracks
guard_step-Stepped limit t g before chunk (total, inl (checked, matches, enough)) =
    checked_step limit t g before chunk total checked matches enough
guard_step-Stepped limit t g before chunk (total, inr (unchecked, head)) =
    unchecked_step limit t g before chunk total unchecked head
