-- ===== src/Chunking/Packing.antt =====
-- `_greedy_pack`: parts joined as long as they fit.
use secondbrain_ai.Prelude.{
  ℕ, ◌+◌, ◌≤◌, ◌≡◌, refl, sym, ap, ◌∙◌, inl, inr, false, ◌&&◌, List, [], ◌∷◌, ◌++◌, flatten,
  append_assoc, append-nil, arith, length, length-append, ltb, All, if◌then◌else◌, Bool-cases,
}
use secondbrain_ai.Prelude.Text.{Text, nonempty, strip}

-- The loop from a given `current`; a part that is appended to `packed` comes first in the result.
unfoldable pub greedy_from : ℕ → List Text → Text → List Text
unfolding strip
greedy_from limit [] current = if nonempty (strip current) then current ∷ [] else []
greedy_from limit (part ∷ parts) current =
    let flushed = current ∷ greedy_from limit parts part in
    let grown = greedy_from limit parts (current ++ part) in
    if nonempty current && ltb limit (length current + length part) then flushed else grown

unfoldable pub greedy_pack : List Text → ℕ → List Text
unfolding greedy_from
greedy_pack parts limit = greedy_from limit parts []

abbrev pub Fits : ℕ → Text → Type 0
Fits limit t = length t ≤ limit

greedy_from-Fits :
    (limit : ℕ) (parts : List Text) (current : Text)
    → All (Fits limit) parts
    → Fits limit current
    → All (Fits limit) (greedy_from limit parts current)
unfolding greedy_from
greedy_from-Fits limit [] current hp hc = ground arith
greedy_from-Fits limit (part ∷ parts) [] hp hc = greedy_from-Fits limit parts part hp.1 hp.0
greedy_from-Fits limit (part ∷ parts) (c ∷ current) hp hc = ground (
  arith,
  greedy_from-Fits limit parts part hp.1 hp.0,
  greedy_from-Fits limit parts ((c ∷ current) ++ part) hp.1,
  length-append (c ∷ current) part,
)

-- If no part is longer than the limit, no packed piece is.
pub greedy_pack-Fits :
    (limit : ℕ) (parts : List Text)
    → All (Fits limit) parts
    → All (Fits limit) (greedy_pack parts limit)
unfolding greedy_pack
greedy_pack-Fits limit parts h = greedy_from-Fits limit parts [] h (omega arith)

-- What a packing leaves out at the end: nothing but whitespace.
abbrev pub Lost : List Text → Text → Type 0
Lost packed whole =
    (tail : Text) × (flatten packed ++ tail ≡ whole) × (nonempty (strip tail) ≡ false)

module _ (limit : ℕ) (parts : List Text) (current : Text) where
  Lost-flush :
      (part : Text)
      → Lost (greedy_from limit parts part) (part ++ flatten parts)
      → Lost (current ∷ greedy_from limit parts part) (current ++ (part ++ flatten parts))
  unfolding flatten
  Lost-flush part (tail, e, blank) =
      (tail, append_assoc current _ tail ∙ ap (λ (u : Text). current ++ u) e, blank)

greedy_from-Lost :
    (limit : ℕ) (parts : List Text) (current : Text)
    → Lost (greedy_from limit parts current) (current ++ flatten parts)
unfolding greedy_from flatten
greedy_from-Lost limit [] current = elim (Bool-cases (nonempty (strip current))) [
  | inl kept ↦ ([], rw kept (append-nil _), refl)
  | inr blank ↦ (current, rw blank (sym (append-nil current)), blank)
]
greedy_from-Lost limit (part ∷ parts) current =
    elim (Bool-cases (nonempty current && ltb limit (length current + length part))) [
      | inl full ↦
          rw (full, greedy_from)
            (Lost-flush limit parts current part (greedy_from-Lost limit parts part))
      | inr room ↦
          rw (room, greedy_from)
            (rw append_assoc at (greedy_from-Lost limit parts (current ++ part)))
    ]

-- Packing keeps the parts in order and whole, and leaves out at most whitespace at the end.
pub greedy_pack-Lost :
    (limit : ℕ) (parts : List Text) → Lost (greedy_pack parts limit) (flatten parts)
unfolding greedy_pack
greedy_pack-Lost limit parts = greedy_from-Lost limit parts []
