-- ===== src/Repositories/Walker/Tests.antt =====
-- A small checkout, and instances of the walker's theorems.
use secondbrain_ai.Prelude.{
  ℕ, ◌+◌, ◌≡◌, refl, Bool, true, false, Option, none, some, List, [], ◌∷◌, length, take, keep_if,
  All,
}
use secondbrain_ai.Prelude.Text.{Text, codes, lower_ascii}
use secondbrain_ai.Repositories.Walker.{
  File, symlink, directory, file, Listing, unlisted, nil, cons, iter_files, WalkResult,
  reason_against, walk_repository, max_files, reason_of_content, is_probably_binary,
}
use secondbrain_ai.Repositories.Walker.Traversal.{Visible, iter_files-Visible}
use secondbrain_ai.Repositories.Walker.Accounting.{worth_indexing, total, walk_repository_files}
use mathlib.Core.List.{Memᴰ}

abbrev source : Text → List ℕ → File
source name bytes = record { name = name; size = some (length bytes); bytes = some bytes }

abbrev checkout : Listing
checkout =
    cons (directory (codes "node_modules") (cons (file (source (codes "a.js") (1 ∷ []))) nil)) (
      cons (file (source (codes "main.py") (104 ∷ 105 ∷ []))) (
        cons (symlink (codes "link.py")) (
          cons (directory (codes "lib") (cons (file (source (codes "util.py") (0 ∷ []))) nil))
            (cons (directory (codes "private") unlisted) nil))))

abbrev names : List File → List Text
names [] = []
names (f ∷ fs) = f.name ∷ names fs

abbrev names_of : Option (List File) → List Text
names_of none = []
names_of (some fs) = names fs

iter_files-checkout : names_of (iter_files checkout) ≡ codes "main.py" ∷ codes "util.py" ∷ []
unfolding iter_files
iter_files-checkout = refl

-- The lower-case name is not among the ignored names, which hold a capital: the suffix excludes it.
reason_against_lock :
    reason_against lower_ascii (source (codes "Pipfile.lock") (1 ∷ []))
    ≡ some (codes "generated or binary")
unfolding reason_against secondbrain_ai.FileTypes.detect secondbrain_ai.FileTypes.or_tool
    secondbrain_ai.FileTypes.by_extension secondbrain_ai.Prelude.Paths.suffix
    secondbrain_ai.Prelude.Paths.path_name reason_of_content is_probably_binary
reason_against_lock = refl

reason_against_binary :
    reason_against lower_ascii (source (codes "a.py") (1 ∷ 0 ∷ [])) ≡ some (codes "binary")
unfolding reason_against secondbrain_ai.FileTypes.detect secondbrain_ai.FileTypes.or_tool
    secondbrain_ai.FileTypes.by_extension secondbrain_ai.Prelude.Paths.suffix
    secondbrain_ai.Prelude.Paths.path_name reason_of_content is_probably_binary
reason_against_binary = refl

iter_files-Visible_example :
    (fs : List File) × (iter_files checkout ≡ some fs)
    × All (λ f. Visible f checkout) fs
    × ((f : File) → Visible f checkout → Memᴰ f fs)
iter_files-Visible_example = iter_files-Visible checkout

walk_repository_files_example :
    (fs : List File) × (r : WalkResult) × (iter_files checkout ≡ some fs)
    × (walk_repository lower_ascii checkout ≡ some r)
    × (r.files ≡ take max_files (keep_if (worth_indexing lower_ascii) fs))
    × (length r.files + r.skipped ≡ length fs)
    × (total r.reasons ≡ r.skipped)
walk_repository_files_example = walk_repository_files lower_ascii checkout
