-- ===== src/Prelude/Paths.antt =====
-- `pathlib.PurePosixPath`: the name, the suffix and the stem of a path.
use secondbrain_ai.Prelude.Tests.{◌==◌, if◌then◌else◌}
use secondbrain_ai.Prelude.Lists.{length, take, All}
use secondbrain_ai.Prelude.Text.{Text, onto_head}
use Prim.Native.Nat.{ℕ, ◌-◌}
use mathlib.Core.Path.{◌≡◌, refl}
use mathlib.Core.Logic.{◌≢◌}
use mathlib.Core.Bool.{Bool, true, false}
use mathlib.Core.Option.{Option, none, some}
use mathlib.Core.List.{List, [], ◌∷◌, ◌++◌}
use native.Mathlib.Omega.{arith}

-- The text between the slashes.
unfoldable pub components : Text → List Text
components [] = [] ∷ []
components (c ∷ t) = let rest = components t in if c == 47 then [] ∷ rest else onto_head c rest

-- Empty components and single dots are no part of a path.
abbrev is_part : Text → Bool
is_part [] = false
is_part (c ∷ []) = if c == 46 then false else true
is_part (c ∷ d ∷ t) = true

abbrev last_part : Text → List Text → Text
last_part found [] = found
last_part found (p ∷ ps) = last_part (if is_part p then p else found) ps

-- `Path(text).name`
unfoldable pub path_name : Text → Text
unfolding components
path_name t = last_part [] (components t)

-- The text from its last dot on.
unfoldable pub from_last_dot : Text → Option Text
from_last_dot [] = none
from_last_dot (c ∷ t) =
    let later = from_last_dot t in
    elim later [ some s ↦ some s | none ↦ (if c == 46 then some (c ∷ t) else none) ]

-- A dot alone is no suffix.
abbrev suffix_of : Option Text → Text
suffix_of none = []
suffix_of (some []) = []
suffix_of (some (c ∷ [])) = []
suffix_of (some (c ∷ d ∷ t)) = c ∷ d ∷ t

-- `Path(name).suffix`: a dot in front of the name does not count.
unfoldable pub suffix : Text → Text
unfolding from_last_dot
suffix [] = []
suffix (c ∷ t) = suffix_of (from_last_dot t)

-- `Path(name).stem`
unfoldable pub stem : Text → Text
unfolding suffix
stem name = take (length name - length (suffix name)) name

components_plain : (t : Text) → All (λ x. x ≢ 47) t → components t ≡ t ∷ []
unfolding components
components_plain [] h = refl
components_plain (c ∷ t) h = ground (arith, components_plain t h.1, h.0)

-- A name of two characters or more, without a slash, is its own name.
pub path_name_plain :
    (c d : ℕ) (t : Text) → All (λ x. x ≢ 47) (c ∷ d ∷ t) → path_name (c ∷ d ∷ t) ≡ c ∷ d ∷ t
unfolding path_name
path_name_plain c d t h = rw (components_plain (c ∷ d ∷ t) h)

from_last_dot_plain : (t : Text) → All (λ y. y ≢ 46) t → from_last_dot t ≡ none
unfolding from_last_dot
from_last_dot_plain [] h = refl
from_last_dot_plain (c ∷ t) h = ground (arith, from_last_dot_plain t h.1, h.0)

from_last_dot-append :
    (s e : Text) → All (λ y. y ≢ 46) e → from_last_dot (s ++ 46 ∷ e) ≡ some (46 ∷ e)
unfolding from_last_dot
from_last_dot-append [] e h = ground (arith, from_last_dot_plain e h)
from_last_dot-append (c ∷ s) e h = ground (arith, from_last_dot-append s e h)

-- A name that ends in a dot and a text without dots has these as its suffix.
pub suffix-append :
    (c : ℕ) (s : Text) (x : ℕ) (e : Text)
    → All (λ y. y ≢ 46) (x ∷ e)
    → suffix ((c ∷ s) ++ 46 ∷ x ∷ e) ≡ 46 ∷ x ∷ e
unfolding suffix
suffix-append c s x e h = rw (from_last_dot-append s (x ∷ e) h)
