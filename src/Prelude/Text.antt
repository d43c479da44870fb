-- ===== src/Prelude/Text.antt =====
-- Python's `str` as the list of its code points, and the methods of `str` that the program calls.
use Prim.Native.Char.{code}
use Prim.Native.String.{String}
use mathlib.Core.Path.{◌≡◌, refl}
use mathlib.Core.Logic.{◌⊎◌, inl, inr}
use mathlib.Core.Bool.{Bool, true, false, ◌&&◌, ◌||◌}
use mathlib.Core.Option.{Option, none, some}
use mathlib.Core.List.{List, [], ◌∷◌, ◌++◌, map, reverse}
use Prim.Native.Nat.{ℕ, ◌≤◌, ◌+◌}
use native.Mathlib.Omega.{arith}
use secondbrain_ai.Prelude.Tests.{leb, ◌==◌, if◌then◌else◌, Bool-cases}
use secondbrain_ai.Prelude.Lists.{length, drop}

abbrev pub Text : Type 0
Text = List ℕ

-- The code points of a literal. `String` has its own `[]` and `∷`.
abbrev pub codes : String → Text
codes String.[] = []
codes (String.◌∷◌ c s) = code c ∷ codes s

-- `str.isspace` of one character.
unfoldable pub is_space : ℕ → Bool
is_space c =
    (leb 9 c && leb c 13)
    || (leb 28 c && leb c 32)
    || c == 0x85
    || c == 0xa0
    || c == 0x1680
    || (leb 0x2000 c && leb c 0x200a)
    || c == 0x2028
    || c == 0x2029
    || c == 0x202f
    || c == 0x205f
    || c == 0x3000

-- `text.lstrip()`, `text.rstrip()` and `text.strip()`.
unfoldable pub lstrip : Text → Text
unfolding is_space
lstrip [] = []
lstrip (c ∷ t) = if is_space c then lstrip t else c ∷ t

unfoldable pub push_left : ℕ → Text → Text
unfolding is_space
push_left c [] = if is_space c then [] else c ∷ []
push_left c (d ∷ u) = c ∷ d ∷ u

unfoldable pub rstrip : Text → Text
unfolding push_left is_space
rstrip [] = []
rstrip (c ∷ t) = push_left c (rstrip t)

unfoldable pub strip : Text → Text
unfolding lstrip rstrip
strip t = rstrip (lstrip t)

-- `bool(text)`.
abbrev pub nonempty : Text → Bool
nonempty [] = false
nonempty (c ∷ t) = true

unfoldable pub text_eq : Text → Text → Bool
text_eq [] [] = true
text_eq [] (d ∷ u) = false
text_eq (c ∷ t) [] = false
text_eq (c ∷ t) (d ∷ u) = c == d && text_eq t u

-- `text.startswith(p)`.
unfoldable pub starts_with : Text → Text → Bool
starts_with [] t = true
starts_with (c ∷ p) [] = false
starts_with (c ∷ p) (d ∷ t) = c == d && starts_with p t

-- The text behind this prefix, if it has it.
unfoldable pub after_prefix : Text → Text → Option Text
unfolding starts_with
after_prefix p t = if starts_with p t then some (drop (length p) t) else none

-- `text.endswith(p)`.
unfoldable pub ends_with : Text → Text → Bool
unfolding starts_with
ends_with p t = starts_with (reverse p) (reverse t)

-- `p in text`.
unfoldable pub contains : Text → Text → Bool
unfolding starts_with
contains p [] = starts_with p []
contains p (c ∷ t) = starts_with p (c ∷ t) || contains p t

pub text_eq_refl : (s : Text) → text_eq s s ≡ true
unfolding text_eq
text_eq_refl [] = refl
text_eq_refl (c ∷ s) = ground (arith, text_eq_refl s)

pub text_eq→eq : (s t : Text) → text_eq s t ≡ true → s ≡ t
unfolding text_eq
text_eq→eq [] [] h = refl
text_eq→eq [] (d ∷ u) h = ground arith
text_eq→eq (c ∷ t) [] h = ground arith
text_eq→eq (c ∷ t) (d ∷ u) h = ground (arith, text_eq→eq t u)

pub starts_with→append : (p t : Text) → starts_with p t ≡ true → t ≡ p ++ drop (length p) t
unfolding starts_with
starts_with→append [] t h = refl
starts_with→append (c ∷ p) [] h = ground arith
starts_with→append (c ∷ p) (d ∷ t) h = ground (arith, starts_with→append p t)

strip_example : strip (codes "  a b\n ") ≡ codes "a b"
unfolding strip
strip_example = refl

contains_example : contains (codes ", ") (codes "a, b") ≡ true
unfolding contains
contains_example = refl

-- `separator.join(parts)`
unfoldable pub join : Text → List Text → Text
join sep [] = []
join sep (p ∷ []) = p
join sep (p ∷ q ∷ r) = p ++ (sep ++ join sep (q ∷ r))

length-lstrip : (t : Text) → length (lstrip t) ≤ length t
unfolding lstrip
length-lstrip [] = omega arith
length-lstrip (c ∷ t) = ground (arith, length-lstrip t)

length-rstrip : (t : Text) → length (rstrip t) ≤ length t
unfolding rstrip
length-rstrip [] = omega arith
length-rstrip (c ∷ t) = ground (arith, length-rstrip t)

pub length-strip : (t : Text) → length (strip t) ≤ length t
unfolding strip
length-strip t = omega (arith, length-rstrip (lstrip t), length-lstrip t)

-- `strip` takes away characters at the ends only.
contains-lstrip : (p t : Text) → contains p t ≡ false → contains p (lstrip t) ≡ false
unfolding contains lstrip
contains-lstrip p [] h = h
contains-lstrip p (c ∷ t) h = ground (arith, contains-lstrip p t)

push_left_cases : (c : ℕ) (r : Text) → (push_left c r ≡ []) ⊎ (push_left c r ≡ c ∷ r)
unfolding push_left is_space
push_left_cases c [] = elim (Bool-cases (is_space c)) [
  | inl space ↦ inl (rw space)
  | inr other ↦ inr (rw other)
]
push_left_cases c (d ∷ u) = inr refl

rstrip_cons : (c : ℕ) (t : Text) → (rstrip (c ∷ t) ≡ []) ⊎ (rstrip (c ∷ t) ≡ c ∷ rstrip t)
unfolding rstrip
rstrip_cons c t = push_left_cases c (rstrip t)

starts_with-rstrip : (p t : Text) → starts_with p t ≡ false → starts_with p (rstrip t) ≡ false
unfolding starts_with
starts_with-rstrip [] t h = cc
starts_with-rstrip (d ∷ p) [] h = unfold rstrip in refl
starts_with-rstrip (d ∷ p) (c ∷ t) h = elim (rstrip_cons c t) [
  | inl e ↦ rw e refl
  | inr e ↦ rw e (ground (arith, starts_with-rstrip p t))
]

starts_with-nil :
    (p : Text) (c : ℕ) (t : Text) → starts_with p (c ∷ t) ≡ false → starts_with p [] ≡ false
unfolding starts_with
starts_with-nil [] c t h = h
starts_with-nil (d ∷ p) c t h = refl

contains-rstrip : (p t : Text) → contains p t ≡ false → contains p (rstrip t) ≡ false
unfolding contains
contains-rstrip p [] h = unfold rstrip in h
contains-rstrip p (c ∷ t) h =
    let start : starts_with p (c ∷ t) ≡ false = ground arith in
    elim (rstrip_cons c t) [
      | inl e ↦ rw e (starts_with-nil p c t start)
      | inr e ↦
          let now = starts_with-rstrip p (c ∷ t) start in
          let now' : starts_with p (c ∷ rstrip t) ≡ false = rw e at now in
          let later = contains-rstrip p t (ground arith) in rw (e, contains) (ground arith)
    ]

pub contains-strip : (p t : Text) → contains p t ≡ false → contains p (strip t) ≡ false
unfolding strip
contains-strip p t h = contains-rstrip p (lstrip t) (contains-lstrip p t h)

-- `text.lower()` of a text in ASCII.
abbrev pub lower_ascii : Text → Text
lower_ascii t = map (λ c. if leb 65 c && leb c 90 then c + 32 else c) t

-- A character in front of the first text.
abbrev pub onto_head : ℕ → List Text → List Text
onto_head c [] = (c ∷ []) ∷ []
onto_head c (p ∷ ps) = (c ∷ p) ∷ ps

-- A character at which `splitlines` ends a line.
unfoldable pub is_line_break : ℕ → Bool
is_line_break c =
    (leb 10 c && leb c 13) || (leb 28 c && leb c 30) || c == 0x85 || c == 0x2028 || c == 0x2029

-- `text.splitlines()`; the flag says that the character before was a carriage return, with which a
-- line feed is one break.
unfoldable pub splitlines_from : Bool → Text → List Text
unfolding is_line_break
splitlines_from cr [] = []
splitlines_from cr (c ∷ t) =
    let rest = splitlines_from (c == 13) t in
    if cr && c == 10 then rest else if is_line_break c then [] ∷ rest else onto_head c rest

unfoldable pub splitlines : Text → List Text
unfolding splitlines_from
splitlines t = splitlines_from false t

splitlines_example : splitlines (codes "a\n\nb\n") ≡ codes "a" ∷ [] ∷ codes "b" ∷ []
unfolding splitlines
splitlines_example = refl
