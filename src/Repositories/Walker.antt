-- ===== src/Repositories/Walker.antt =====
-- backend/app/services/repositories/walker.py: which files of a checkout are indexed.
pub mod Traversal
pub mod Accounting
mod Tests
use secondbrain_ai.Prelude.{
  ℕ, ◌+◌, suc, zero, Bool, true, false, ◌||◌, Option, none, some, List, [], ◌∷◌, ◌++◌, length, take,
  any, leb, ltb, ◌==◌, if◌then◌else◌,
}
use secondbrain_ai.Prelude.Text.{Text, codes, text_eq, ends_with}
use secondbrain_ai.FileTypes.{FileType, detect, member}

-- `IGNORED_DIRECTORIES`
abbrev pub ignored_directories : List Text
ignored_directories =
    codes ".git"
    ∷ codes ".hg"
    ∷ codes ".svn"
    ∷ codes "node_modules"
    ∷ codes "bower_components"
    ∷ codes "vendor"
    ∷ codes "third_party"
    ∷ codes ".venv"
    ∷ codes "venv"
    ∷ codes "env"
    ∷ codes "virtualenv"
    ∷ codes "__pycache__"
    ∷ codes ".tox"
    ∷ codes ".mypy_cache"
    ∷ codes ".pytest_cache"
    ∷ codes ".ruff_cache"
    ∷ codes "dist"
    ∷ codes "build"
    ∷ codes "out"
    ∷ codes "target"
    ∷ codes "bin"
    ∷ codes "obj"
    ∷ codes ".next"
    ∷ codes ".nuxt"
    ∷ codes ".svelte-kit"
    ∷ codes ".turbo"
    ∷ codes ".parcel-cache"
    ∷ codes "coverage"
    ∷ codes "htmlcov"
    ∷ codes ".nyc_output"
    ∷ codes ".idea"
    ∷ codes ".vscode"
    ∷ codes ".gradle"
    ∷ codes ".terraform"
    ∷ codes "site-packages"
    ∷ codes "Pods"
    ∷ codes "DerivedData"
    ∷ []

-- `IGNORED_FILENAMES`
abbrev pub ignored_filenames : List Text
ignored_filenames =
    codes "package-lock.json"
    ∷ codes "yarn.lock"
    ∷ codes "pnpm-lock.yaml"
    ∷ codes "bun.lockb"
    ∷ codes "poetry.lock"
    ∷ codes "Pipfile.lock"
    ∷ codes "uv.lock"
    ∷ codes "composer.lock"
    ∷ codes "Cargo.lock"
    ∷ codes "go.sum"
    ∷ codes "Gemfile.lock"
    ∷ codes "packages.lock.json"
    ∷ codes ".ds_store"
    ∷ codes "thumbs.db"
    ∷ []

-- `IGNORED_SUFFIXES`
abbrev pub ignored_suffixes : List Text
ignored_suffixes =
    codes ".min.js"
    ∷ codes ".min.css"
    ∷ codes ".map"
    ∷ codes ".bundle.js"
    ∷ codes ".pyc"
    ∷ codes ".pyo"
    ∷ codes ".class"
    ∷ codes ".o"
    ∷ codes ".so"
    ∷ codes ".dylib"
    ∷ codes ".dll"
    ∷ codes ".exe"
    ∷ codes ".lock"
    ∷ codes ".log"
    ∷ codes ".pid"
    ∷ codes ".sqlite3"
    ∷ codes ".db"
    ∷ []

-- `MAX_FILE_BYTES`
abbrev pub max_file_bytes : ℕ
max_file_bytes = 1048576

-- `MAX_FILES`
unfoldable pub max_files : ℕ
max_files = 2000

-- A regular file: what `stat` and `open` find, with no size or no bytes where they raise OSError.
pub record File : Type 0 where
  pub name : Text
  pub size : Option ℕ
  pub bytes : Option (List ℕ)

-- A checkout. Another entry is a socket, a device or a pipe.
mutual
  pub data Entry : Type 0 where
    symlink : Text → Entry
    directory : Text → Listing → Entry
    file : File → Entry
    other : Text → Entry

  -- What `iterdir` yields: `unlisted` where it raises OSError.
  pub data Listing : Type 0 where
    unlisted : Listing
    nil : Listing
    cons : Entry → Listing → Listing

-- `entry.name in IGNORED_DIRECTORIES`
unfoldable pub is_ignored : Text → Bool
unfolding text_eq
is_ignored name = member name ignored_directories

-- The files that one listing yields, and the directories that it pushes on the stack, the last on top.
unfoldable pub yielded : Listing → List File
yielded unlisted = []
yielded nil = []
yielded (cons (file f) es) = f ∷ yielded es
yielded (cons (symlink n) es) = yielded es
yielded (cons (other n) es) = yielded es
yielded (cons (directory n l) es) = yielded es

unfoldable pub pushed : Listing → List Listing → List Listing
unfolding is_ignored
pushed unlisted stack = stack
pushed nil stack = stack
pushed (cons (directory n l) es) stack = pushed es (if is_ignored n then stack else l ∷ stack)
pushed (cons (symlink n) es) stack = pushed es stack
pushed (cons (other n) es) stack = pushed es stack
pushed (cons (file f) es) stack = pushed es stack

abbrev pub prepend : List File → Option (List File) → Option (List File)
prepend fs none = none
prepend fs (some gs) = some (fs ++ gs)

-- The loop of `_iter_files` on its stack, `none` if the fuel is out.
unfoldable pub iter_from : ℕ → List Listing → Option (List File)
unfolding yielded pushed
iter_from fuel [] = some []
iter_from zero (l ∷ stack) = none
iter_from (suc fuel) (l ∷ stack) = prepend (yielded l) (iter_from fuel (pushed l stack))

-- The directories of a listing, with itself.
unfoldable pub directories : Listing → ℕ
directories unlisted = 1
directories nil = 1
directories (cons (directory n l) es) = directories l + directories es
directories (cons (symlink n) es) = directories es
directories (cons (other n) es) = directories es
directories (cons (file f) es) = directories es

-- `_iter_files`: each directory is popped once at most.
unfoldable pub iter_files : Listing → Option (List File)
unfolding iter_from directories
iter_files root = iter_from (directories root) (root ∷ [])

-- `WalkResult`
pub record WalkResult : Type 0 where
  pub files : List File
  pub skipped : ℕ
  pub reasons : List (Text × ℕ)
  pub truncated : Bool

unfoldable pub count_reason : Text → List (Text × ℕ) → List (Text × ℕ)
unfolding text_eq
count_reason reason [] = (reason, 1) ∷ []
count_reason reason ((r, n) ∷ rs) =
    let rest = count_reason reason rs in if text_eq r reason then (r, n + 1) ∷ rs else (r, n) ∷ rest

-- `WalkResult.skip`
unfoldable pub skip : Text → WalkResult → WalkResult
unfolding count_reason
skip reason r = record {
  files = r.files;
  skipped = r.skipped + 1;
  reasons = count_reason reason r.reasons;
  truncated = r.truncated;
}

-- `is_probably_binary`
unfoldable pub is_probably_binary : File → Bool
is_probably_binary f = elim f.bytes [
  | some bytes ↦ any (λ b. b == 0) (take 8192 bytes)
  | none ↦ true
]

-- The test of a file's size and bytes, which ends the loop's body.
unfoldable pub reason_of_content : File → Option Text
unfolding is_probably_binary
reason_of_content f = elim f.size [
  | none ↦ some (codes "unreadable")
  | some size ↦
      if size == 0
      then some (codes "empty")
      else if ltb max_file_bytes size
      then some (codes "too large")
      else if is_probably_binary f
      then some (codes "binary")
      else none
]

-- The first test that fails, with the name among those ignored, its end among those ignored, the type
-- found and the reason of the content.
abbrev pub first_reason : Bool → Bool → Option FileType → Option Text → Option Text
first_reason true s d later = some (codes "generated or lock file")
first_reason false true d later = some (codes "generated or binary")
first_reason false false none later = some (codes "unsupported file type")
first_reason false false (some t) later = later

-- Why a file is not collected, if it is not.
unfoldable pub reason_against : (Text → Text) → File → Option Text
unfolding ends_with text_eq
reason_against lower f =
    let name = lower f.name in
    first_reason (member name ignored_filenames) (any (λ s. ends_with s name) ignored_suffixes)
      (detect lower f.name) (reason_of_content f)

unfoldable pub collect : File → WalkResult → Option Text → WalkResult
unfolding skip
collect f r (some reason) = skip reason r
collect f r none = record {
  files = r.files ++ f ∷ [];
  skipped = r.skipped;
  reasons = r.reasons;
  truncated = r.truncated;
}

-- The body of the loop of `walk_repository`.
unfoldable pub walk_file : (Text → Text) → WalkResult → File → WalkResult
unfolding reason_against skip max_files
walk_file lower r f =
    if leb max_files (length r.files)
    then skip (codes "repository too large")
        (record { files = r.files; skipped = r.skipped; reasons = r.reasons; truncated = true })
    else collect f r (reason_against lower f)

unfoldable pub walk_files : (Text → Text) → WalkResult → List File → WalkResult
unfolding walk_file
walk_files lower r [] = r
walk_files lower r (f ∷ fs) = walk_files lower (walk_file lower r f) fs

abbrev pub new_result : WalkResult
new_result = record { files = []; skipped = 0; reasons = []; truncated = false }

-- `walk_repository`
unfoldable pub walk_repository : (Text → Text) → Listing → Option WalkResult
unfolding walk_files iter_files
walk_repository lower root = elim (iter_files root) [
  | some files ↦ some (walk_files lower new_result files)
  | none ↦ none
]
