-- ===== src/Chunking/Whitespace/Tidy.antt =====
-- What `normalise_whitespace` leaves no longer contains.
use secondbrain_ai.Prelude.{ℕ, suc, ◌≡◌, refl, Bool, true, false, [], ◌∷◌, arith}
use secondbrain_ai.Prelude.Text.{Text, codes, starts_with, contains, contains-strip}
use secondbrain_ai.Chunking.Whitespace.{collapse_blanks, collapse_lines, normalise_whitespace}

-- A blank never follows a blank.
collapse_blanks_run : (t : Text) → starts_with (32 ∷ []) (collapse_blanks true t) ≡ false
unfolding collapse_blanks starts_with
collapse_blanks_run [] = refl
collapse_blanks_run (c ∷ t) = ground (arith, collapse_blanks_run t)

collapse_blanks_double :
    (run : Bool) (t : Text) → contains (32 ∷ 32 ∷ []) (collapse_blanks run t) ≡ false
unfolding collapse_blanks contains starts_with
collapse_blanks_double run [] = refl
collapse_blanks_double run (c ∷ t) =
    ground
      (arith, collapse_blanks_run t, collapse_blanks_double true t, collapse_blanks_double false t)

collapse_blanks_tab : (run : Bool) (t : Text) → contains (9 ∷ []) (collapse_blanks run t) ≡ false
unfolding collapse_blanks contains starts_with
collapse_blanks_tab run [] = refl
collapse_blanks_tab run (c ∷ t) =
    ground (arith, collapse_blanks_tab true t, collapse_blanks_tab false t)

-- Three line breaks never stand together.
collapse_lines_two : (t : Text) → starts_with (10 ∷ []) (collapse_lines 2 t) ≡ false
unfolding collapse_lines starts_with
collapse_lines_two [] = refl
collapse_lines_two (c ∷ t) = ground (arith, collapse_lines_two t)

collapse_lines_one : (t : Text) → starts_with (10 ∷ 10 ∷ []) (collapse_lines 1 t) ≡ false
unfolding collapse_lines starts_with
collapse_lines_one [] = refl
collapse_lines_one (c ∷ t) = ground (arith, collapse_lines_two t)

collapse_lines_triple :
    (t : Text)
    → (contains (10 ∷ 10 ∷ 10 ∷ []) (collapse_lines 0 t) ≡ false)
      × (contains (10 ∷ 10 ∷ 10 ∷ []) (collapse_lines 1 t) ≡ false)
      × (contains (10 ∷ 10 ∷ 10 ∷ []) (collapse_lines 2 t) ≡ false)
unfolding collapse_lines contains starts_with
collapse_lines_triple [] = (refl, refl, refl)
collapse_lines_triple (c ∷ t) =
    ground (arith, collapse_lines_triple t, collapse_lines_one t, collapse_lines_two t)

-- The break after a character that is none is kept, so what a text begins with stays.
starts_with_space-collapse_lines :
    (t : Text) → starts_with (32 ∷ []) (collapse_lines 0 t) ≡ starts_with (32 ∷ []) t
unfolding collapse_lines starts_with
starts_with_space-collapse_lines [] = refl
starts_with_space-collapse_lines (c ∷ t) = ground arith

collapse_lines_double :
    (k : ℕ) (t : Text)
    → contains (32 ∷ 32 ∷ []) t ≡ false
    → contains (32 ∷ 32 ∷ []) (collapse_lines k t) ≡ false
unfolding collapse_lines contains starts_with
collapse_lines_double k [] h = refl
collapse_lines_double k (c ∷ t) h = ground (
  arith,
  starts_with_space-collapse_lines t,
  collapse_lines_double (suc k) t,
  collapse_lines_double k t,
  collapse_lines_double 0 t,
)

collapse_lines_tab :
    (k : ℕ) (t : Text)
    → contains (9 ∷ []) t ≡ false
    → contains (9 ∷ []) (collapse_lines k t) ≡ false
unfolding collapse_lines contains starts_with
collapse_lines_tab k [] h = refl
collapse_lines_tab k (c ∷ t) h =
    ground (arith, collapse_lines_tab (suc k) t, collapse_lines_tab k t, collapse_lines_tab 0 t)

-- Normalised text has no tab, no two spaces in a row and no three line breaks in a row.
pub normalise_whitespace_tidy :
    (t : Text)
    → (contains (9 ∷ []) (normalise_whitespace t) ≡ false)
      × (contains (32 ∷ 32 ∷ []) (normalise_whitespace t) ≡ false)
      × (contains (10 ∷ 10 ∷ 10 ∷ []) (normalise_whitespace t) ≡ false)
unfolding normalise_whitespace
normalise_whitespace_tidy t = (
  contains-strip (9 ∷ []) _ (collapse_lines_tab 0 _ (collapse_blanks_tab false t)),
  contains-strip (32 ∷ 32 ∷ []) _ (collapse_lines_double 0 _ (collapse_blanks_double false t)),
  contains-strip (10 ∷ 10 ∷ 10 ∷ []) _ (collapse_lines_triple (collapse_blanks false t)).0,
)

normalise_whitespace_tidy_example :
    (contains (9 ∷ []) (normalise_whitespace (codes " a   b ")) ≡ false)
    × (contains (32 ∷ 32 ∷ []) (normalise_whitespace (codes " a   b ")) ≡ false)
    × (contains (10 ∷ 10 ∷ 10 ∷ []) (normalise_whitespace (codes " a   b ")) ≡ false)
normalise_whitespace_tidy_example = normalise_whitespace_tidy (codes " a   b ")

runs :
    normalise_whitespace (9 ∷ 65 ∷ 32 ∷ 9 ∷ 66 ∷ 10 ∷ 10 ∷ 10 ∷ 10 ∷ 67 ∷ 10 ∷ [])
    ≡ 65 ∷ 32 ∷ 66 ∷ 10 ∷ 10 ∷ 67 ∷ []
unfolding normalise_whitespace
runs = refl
