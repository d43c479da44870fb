-- ===== src/FileTypes/Detection.antt =====
-- Which file names are accepted.
use secondbrain_ai.Prelude.{
  ℕ, ◌≡◌, ◌≢◌, refl, Bool, true, false, not, ◌&&◌, Option, none, some, List, [], ◌∷◌, ◌++◌, arith,
  all, All, All-append, All-mono, ◌==◌,
}
use secondbrain_ai.Prelude.Text.{Text, text_eq_refl, text_eq→eq}
use secondbrain_ai.Prelude.Paths.{path_name, suffix, path_name_plain, suffix-append}
use secondbrain_ai.FileTypes.{FileType, types, by_extension, or_tool, detect}

by_extension_extension :
    (ext : Text) (ts : List FileType) (t : FileType)
    → by_extension ext ts ≡ some t
    → t.extension ≡ ext
unfolding by_extension
by_extension_extension ext [] t h = cc
by_extension_extension ext (u ∷ ts) t h =
    ground (arith, by_extension_extension ext ts t, text_eq→eq u.extension ext)

-- Every type of a list is found in it, or another one with its extension.
by_extension_total :
    (ts : List FileType) → All (λ t. (f : FileType) × (by_extension t.extension ts ≡ some f)) ts
by_extension_total [] = tt
by_extension_total (u ∷ ts) =
    (first (by_extension u.extension ts) refl, All-mono _ _ ts later (by_extension_total ts))
  where
    first :
        (o : Option FileType)
        → by_extension u.extension ts ≡ o
        → (f : FileType) × (by_extension u.extension (u ∷ ts) ≡ some f)
    first none e = (u, unfold by_extension in rw e (rw (text_eq_refl u.extension)))
    first (some f) e = (f, unfold by_extension in rw e)

    later :
        (t : FileType)
        → (f : FileType) × (by_extension t.extension ts ≡ some f)
        → (f : FileType) × (by_extension t.extension (u ∷ ts) ≡ some f)
    later t (f, e) = (f, unfold by_extension in rw e)

-- A dot, and then a character or more, none of them a dot or a slash.
plain : Text → Bool
plain t = all (λ c. not (c == 46) && not (c == 47)) t

dotted : Text → Bool
unfolding plain
dotted [] = false
dotted (c ∷ []) = false
dotted (c ∷ d ∷ t) = c == 46 && plain (d ∷ t)

types-dotted : all (λ t. dotted t.extension) types ≡ true
unfolding dotted
types-dotted = refl

pub all→All :
    (p : FileType → Bool) (ts : List FileType) → all p ts ≡ true → All (λ t. p t ≡ true) ts
all→All p [] h = tt
all→All p (t ∷ ts) h = (ground arith, all→All p ts (ground arith))

plain→All : (t : Text) → plain t ≡ true → All (λ c. c ≢ 46) t × All (λ c. c ≢ 47) t
unfolding plain
plain→All [] h = (tt, tt)
plain→All (c ∷ t) h = ground (arith, plain→All t)

detect_found :
    (lower : Text → Text) (name ext : Text) (f : FileType)
    → path_name name ≡ name
    → suffix name ≡ ext
    → lower ext ≡ ext
    → by_extension ext types ≡ some f
    → detect lower name ≡ some f
unfolding detect or_tool
detect_found lower name ext f p s l e = rw (p, s, l, e)

module _ (lower : Text → Text) (c : ℕ) (s : Text) (name : All (λ x. x ≢ 47) (c ∷ s)) where
  path_name-extended :
      (x : ℕ) (e : Text)
      → All (λ y. y ≢ 47) (x ∷ e)
      → path_name ((c ∷ s) ++ x ∷ e) ≡ (c ∷ s) ++ x ∷ e
  path_name-extended x e h = at s (All-append _ (c ∷ s) (x ∷ e) name h)
    where
      at :
          (r : Text)
          → All (λ y. y ≢ 47) (c ∷ (r ++ x ∷ e))
          → path_name (c ∷ (r ++ x ∷ e)) ≡ c ∷ (r ++ x ∷ e)
      at [] g = path_name_plain c x e g
      at (d ∷ r) g = path_name_plain c d (r ++ x ∷ e) g

  detect-dotted :
      (ext : Text) (f : FileType)
      → dotted ext ≡ true
      → lower ext ≡ ext
      → by_extension ext types ≡ some f
      → detect lower ((c ∷ s) ++ ext) ≡ some f
  unfolding dotted
  detect-dotted [] f d l e = cc
  detect-dotted (x ∷ []) f d l e = cc
  detect-dotted (x ∷ y ∷ ext) f d l e =
      let dot : x ≡ 46 = ground arith in
      let rest : plain (y ∷ ext) ≡ true = ground arith in
      let parts = plain→All (y ∷ ext) rest in
      detect_found lower ((c ∷ s) ++ x ∷ y ∷ ext) (x ∷ y ∷ ext) f
        (path_name-extended x (y ∷ ext) (ground (arith, parts.1)))
        (rw dot (suffix-append c s y ext parts.0)) l e

-- The file types that a name with this extension is accepted as.
abbrev pub Accepted : (Text → Text) → Text → FileType → Type 0
Accepted lower stem t =
    (f : FileType) × (detect lower (stem ++ t.extension) ≡ some f) × (f.extension ≡ t.extension)

-- For each file type that is known, a name without a slash that ends in its extension is accepted, and
-- the type found has this extension: if `str.lower` leaves the extensions of the table as they are.
pub detect_supported :
    (lower : Text → Text)
    → All (λ t. lower t.extension ≡ t.extension) types
    → (c : ℕ) (s : Text) → All (λ x. x ≢ 47) (c ∷ s)
    → All (Accepted lower (c ∷ s)) types
detect_supported lower fixed c s plain_name =
    every types fixed (all→All (λ t. dotted t.extension) types types-dotted)
      (by_extension_total types)
  where
    every :
        (ts : List FileType)
        → All (λ t. lower t.extension ≡ t.extension) ts
        → All (λ t. dotted t.extension ≡ true) ts
        → All (λ t. (f : FileType) × (by_extension t.extension types ≡ some f)) ts
        → All (Accepted lower (c ∷ s)) ts
    every [] l d h = tt
    every (t ∷ ts) l d ((f, e), h) = (
      (
        f,
        detect-dotted lower c s plain_name t.extension f d.0 l.0 e,
        by_extension_extension t.extension types f e,
      ),
      every ts l.1 d.1 h,
    )
