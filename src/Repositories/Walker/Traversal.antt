-- ===== src/Repositories/Walker/Traversal.antt =====
-- `_iter_files` of the walker against a recursion on the tree.
use secondbrain_ai.Prelude.{
  ℕ, ◌+◌, ◌≤◌, zero, suc, ◌≡◌, refl, sym, false, some, List, [], ◌∷◌, ◌++◌, append_assoc,
  append-nil, arith, ap, ◌∙◌, ◌⊎◌, All, All-append, All-mono, Bool-cases, if◌then◌else◌, inl, inr,
}
use mathlib.Core.List.{Memᴰ}
use mathlib.Core.List.Memᴰ
use secondbrain_ai.Prelude.Text.{Text}
use secondbrain_ai.Repositories.Walker.{
  File, Entry, symlink, directory, file, other, Listing, unlisted, nil, cons, is_ignored, yielded,
  pushed, iter_from, directories, iter_files,
}

-- The files below the directories of a listing: those of the last directory first.
unfoldable pub below : Listing → List File
unfolding yielded is_ignored
below unlisted = []
below nil = []
below (cons (directory n l) es) = below es ++ (if is_ignored n then [] else yielded l ++ below l)
below (cons (symlink n) es) = below es
below (cons (other n) es) = below es
below (cons (file f) es) = below es

unfoldable pub below_all : List Listing → List File
unfolding yielded below
below_all [] = []
below_all (l ∷ stack) = (yielded l ++ below l) ++ below_all stack

unfoldable pub directories_all : List Listing → ℕ
unfolding directories
directories_all [] = 0
directories_all (l ∷ stack) = directories l + directories_all stack

below_all-pushed :
    (l : Listing) (stack : List Listing) → below_all (pushed l stack) ≡ below l ++ below_all stack
unfolding below_all pushed below
below_all-pushed unlisted stack = refl
below_all-pushed nil stack = refl
below_all-pushed (cons (symlink n) es) stack = below_all-pushed es stack
below_all-pushed (cons (other n) es) stack = below_all-pushed es stack
below_all-pushed (cons (file f) es) stack = below_all-pushed es stack
below_all-pushed (cons (directory n l) es) stack = elim (Bool-cases (is_ignored n)) [
  | inl skip ↦ rw (skip, below_all-pushed es stack, append-nil (below es))
  | inr deep ↦
      rw (deep, below_all-pushed es (l ∷ stack))
        (sym (append_assoc (below es) (yielded l ++ below l) (below_all stack)))
]

directories_all-pushed :
    (l : Listing) (stack : List Listing)
    → suc (directories_all (pushed l stack)) ≤ directories l + directories_all stack
unfolding directories_all pushed
directories_all-pushed unlisted stack = ground arith
directories_all-pushed nil stack = ground arith
directories_all-pushed (cons (symlink n) es) stack = directories_all-pushed es stack
directories_all-pushed (cons (other n) es) stack = directories_all-pushed es stack
directories_all-pushed (cons (file f) es) stack = directories_all-pushed es stack
directories_all-pushed (cons (directory n l) es) stack = elim (Bool-cases (is_ignored n)) [
  | inl skip ↦ rw skip (omega (arith, directories_all-pushed es stack))
  | inr deep ↦ rw deep (omega (arith, directories_all-pushed es (l ∷ stack)))
]

iter_from-below_all :
    (fuel : ℕ) (stack : List Listing)
    → directories_all stack ≤ fuel
    → iter_from fuel stack ≡ some (below_all stack)
unfolding iter_from below_all directories_all
iter_from-below_all zero [] h = refl
iter_from-below_all (suc fuel) [] h = refl
iter_from-below_all zero (l ∷ stack) h = ground (arith, directories_all-pushed l stack)
iter_from-below_all (suc fuel) (l ∷ stack) h =
    rw
      (
        iter_from-below_all fuel (pushed l stack)
            (omega (arith, directories_all-pushed l stack, h)),
        below_all-pushed l stack,
      )
      (ap some (sym (append_assoc (yielded l) (below l) (below_all stack))))

-- The walk of the files ends within its fuel, and yields the files of the root and then those below
-- its directories that are not ignored, the last directory first.
pub iter_files-below : (root : Listing) → iter_files root ≡ some (yielded root ++ below root)
unfolding iter_files below_all directories_all
iter_files-below root =
    iter_from-below_all (directories root) (root ∷ []) (omega arith)
    ∙ ap some (append-nil (yielded root ++ below root))

-- A file of a checkout that no symlink and no ignored directory leads to.
pub data Visible (f : File) : Listing → Type 0 where
  here : (es : Listing) → Visible f (cons (file f) es)
  later : (e : Entry) (es : Listing) → Visible f es → Visible f (cons e es)
  deeper :
      (n : Text) (l es : Listing)
      → is_ignored n ≡ false
      → Visible f l
      → Visible f (cons (directory n l) es)

later-All :
    (e : Entry) (es : Listing) (fs : List File)
    → All (λ f. Visible f es) fs
    → All (λ f. Visible f (cons e es)) fs
later-All e es fs h = All-mono _ _ fs (λ f v. later e es v) h

yielded-Visible : (l : Listing) → All (λ f. Visible f l) (yielded l)
unfolding yielded
yielded-Visible unlisted = tt
yielded-Visible nil = tt
yielded-Visible (cons (symlink n) es) = later-All (symlink n) es (yielded es) (yielded-Visible es)
yielded-Visible (cons (other n) es) = later-All (other n) es (yielded es) (yielded-Visible es)
yielded-Visible (cons (directory n l) es) =
    later-All (directory n l) es (yielded es) (yielded-Visible es)
yielded-Visible (cons (file f) es) =
    (here es, later-All (file f) es (yielded es) (yielded-Visible es))

below-Visible : (l : Listing) → All (λ f. Visible f l) (below l)
unfolding below
below-Visible unlisted = tt
below-Visible nil = tt
below-Visible (cons (symlink n) es) = later-All (symlink n) es (below es) (below-Visible es)
below-Visible (cons (other n) es) = later-All (other n) es (below es) (below-Visible es)
below-Visible (cons (file f) es) = later-All (file f) es (below es) (below-Visible es)
below-Visible (cons (directory n l) es) =
    let rest = later-All (directory n l) es (below es) (below-Visible es) in
    let inside = All-append _ (yielded l) (below l) (yielded-Visible l) (below-Visible l) in
    All-append _ (below es) _ rest (elim (Bool-cases (is_ignored n)) [
      | inl skip ↦ rw skip tt
      | inr deep ↦
          rw deep (All-mono _ _ (yielded l ++ below l) (λ f v. deeper n l es deep v) inside)
    ])

-- Every such file is yielded.
visible_in : (f : File) (l : Listing) → Visible f l → Memᴰ f (yielded l) ⊎ Memᴰ f (below l)
unfolding yielded below
visible_in f _ (here es) = inl (Memᴰ.head refl)
visible_in f _ (later (file g) es v) = elim (visible_in f es v) [
  | inl m ↦ inl (Memᴰ.tail m)
  | inr m ↦ inr m
]
visible_in f _ (later (symlink n) es v) = visible_in f es v
visible_in f _ (later (other n) es v) = visible_in f es v
visible_in f _ (later (directory n l) es v) = elim (visible_in f es v) [
  | inl m ↦ inl m
  | inr m ↦ inr (Memᴰ.append_left _ m)
]
visible_in f _ (deeper n l es deep v) =
    inr (Memᴰ.append_right (below es) (rw deep (both (visible_in f l v))))
  where
    both : Memᴰ f (yielded l) ⊎ Memᴰ f (below l) → Memᴰ f (yielded l ++ below l)
    both (inl m) = Memᴰ.append_left (below l) m
    both (inr m) = Memᴰ.append_right (yielded l) m

-- The walk yields the files that no symlink and no ignored directory leads to: these only, and all.
pub iter_files-Visible :
    (root : Listing)
    → (fs : List File) × (iter_files root ≡ some fs)
      × All (λ f. Visible f root) fs
      × ((f : File) → Visible f root → Memᴰ f fs)
iter_files-Visible root = (
  yielded root ++ below root,
  iter_files-below root,
  All-append _ (yielded root) (below root) (yielded-Visible root) (below-Visible root),
  λ f v. elim (visible_in f root v) [
    | inl m ↦ Memᴰ.append_left (below root) m
    | inr m ↦ Memᴰ.append_right (yielded root) m
  ],
)
