-- ===== src/Repositories/Walker/Accounting.antt =====
-- `walk_repository` of the walker: what is collected, and what is counted as skipped.
use secondbrain_ai.Prelude.{
  ℕ, ◌+◌, ◌-◌, ◌≤◌, ◌<◌, zero, suc, ◌≡◌, refl, sym, ap, subst, ◌∙◌, Bool, true, false, not, ◌&&◌,
  Option, none, some, List, [], ◌∷◌, ◌++◌, append_assoc, append-nil, arith, any, take, length,
  length-append, keep_if, leb, ◌==◌, leb→le, Bool-cases, inl, inr, ◌⊎◌,
}
use secondbrain_ai.Prelude.Text.{Text, text_eq, ends_with}
use secondbrain_ai.FileTypes.{FileType, detect, member}
use secondbrain_ai.Repositories.Walker.{
  File, Listing, yielded, iter_files, WalkResult, count_reason, skip, is_probably_binary,
  reason_of_content, reason_against, walk_file, walk_files, collect, new_result, walk_repository,
  max_files, max_file_bytes, ignored_filenames, ignored_suffixes, first_reason,
}
use secondbrain_ai.Repositories.Walker.Traversal.{below, iter_files-below}

abbrev is_some {ℓ} : {A : Type ℓ} → Option A → Bool
is_some none = false
is_some (some a) = true

abbrev source_sized : Option ℕ → Bool
source_sized none = false
source_sized (some size) = leb 1 size && leb size max_file_bytes

abbrev text_bytes : Option (List ℕ) → Bool
text_bytes none = false
text_bytes (some bytes) = not (any (λ b. b == 0) (take 8192 bytes))

-- A file that a person wrote: by its name, its size and the first bytes of it.
unfoldable pub worth_indexing : (Text → Text) → File → Bool
unfolding ends_with text_eq
worth_indexing lower f =
    not (member (lower f.name) ignored_filenames)
    && not (any (λ s. ends_with s (lower f.name)) ignored_suffixes)
    && is_some (detect lower f.name)
    && (source_sized f.size && text_bytes f.bytes)

is_some-reason_of_content :
    (f : File) → is_some (reason_of_content f) ≡ not (source_sized f.size && text_bytes f.bytes)
unfolding reason_of_content is_probably_binary
is_some-reason_of_content f = ground arith

is_some-first_reason :
    (n s : Bool) (d : Option FileType) (r : Option Text) (b : Bool)
    → is_some r ≡ not b
    → is_some (first_reason n s d r) ≡ not (not n && not s && is_some d && b)
is_some-first_reason true s d r b h = refl
is_some-first_reason false true d r b h = refl
is_some-first_reason false false none r b h = refl
is_some-first_reason false false (some t) r b h = h

is_some-reason_against :
    (lower : Text → Text) (f : File)
    → is_some (reason_against lower f) ≡ not (worth_indexing lower f)
unfolding reason_against worth_indexing text_eq ends_with
is_some-reason_against lower f =
    is_some-first_reason (member (lower f.name) ignored_filenames)
      (any (λ s. ends_with s (lower f.name)) ignored_suffixes) (detect lower f.name)
      (reason_of_content f) (source_sized f.size && text_bytes f.bytes)
      (is_some-reason_of_content f)

-- The total of the counts.
unfoldable pub total : List (Text × ℕ) → ℕ
total [] = 0
total ((r, n) ∷ rs) = n + total rs

total-count_reason : (r : Text) (rs : List (Text × ℕ)) → total (count_reason r rs) ≡ total rs + 1
unfolding total count_reason
total-count_reason r [] = refl
total-count_reason r ((s, n) ∷ rs) = ground (arith, total-count_reason r rs)

take_nil : (n : ℕ) → take {A = File} n [] ≡ []
take_nil zero = refl
take_nil (suc n) = refl

-- A file that is not collected: the files stay, and one is counted more.
Skipped : WalkResult → WalkResult → Type 0
unfolding total
Skipped r s =
    (s.files ≡ r.files) × (s.skipped ≡ r.skipped + 1) × (total s.reasons ≡ total r.reasons + 1)

skip-Skipped : (reason : Text) (r : WalkResult) → Skipped r (skip reason r)
unfolding Skipped skip
skip-Skipped reason r = (refl, refl, total-count_reason reason r.reasons)

-- A file that is collected.
Collected : File → WalkResult → WalkResult → Type 0
unfolding total
Collected f r s =
    (s.files ≡ r.files ++ f ∷ []) × (s.skipped ≡ r.skipped) × (total s.reasons ≡ total r.reasons)

collect-worth :
    (f : File) (r : WalkResult) (o : Option Text) (b : Bool)
    → is_some o ≡ not b
    → ((b ≡ true) × Collected f r (collect f r o)) ⊎ ((b ≡ false) × Skipped r (collect f r o))
unfolding Collected collect
collect-worth f r none true h = inl (refl, (refl, refl, refl))
collect-worth f r none false h = cc
collect-worth f r (some reason) true h = cc
collect-worth f r (some reason) false h = inr (refl, skip-Skipped reason r)

-- The body of the loop: past the limit every file is skipped, else those that are not worth it.
walk_file_cases :
    (lower : Text → Text) (r : WalkResult) (f : File)
    → (max_files ≤ length r.files) × Skipped r (walk_file lower r f)
      ⊎ (length r.files < max_files)
        × ((worth_indexing lower f ≡ true) × Collected f r (walk_file lower r f)
            ⊎ (worth_indexing lower f ≡ false) × Skipped r (walk_file lower r f))
unfolding walk_file Skipped
walk_file_cases lower r f = elim (Bool-cases (leb max_files (length r.files))) [
  | inl full ↦ inl (
    leb→le max_files (length r.files) full,
    rw full (
        skip-Skipped _
          (record { files = r.files; skipped = r.skipped; reasons = r.reasons; truncated = true })),
  )
  | inr room ↦ inr (
    ground arith,
    rw room (
        collect-worth f r (reason_against lower f) (worth_indexing lower f)
          (is_some-reason_against lower f)),
  )
]

-- The counts of a run: what is collected, and that what is skipped is the rest.
Accounted : (Text → Text) → WalkResult → List File → WalkResult → Type 0
unfolding total
Accounted lower r fs s =
    (s.files ≡ r.files ++ take (max_files - length r.files) (keep_if (worth_indexing lower) fs))
    × (length s.files + s.skipped ≡ length r.files + r.skipped + length fs)
    × (total s.reasons + r.skipped ≡ total r.reasons + s.skipped)

module _ (lower : Text → Text) (r w s : WalkResult) (f : File) (fs : List File) where
  skip_step :
      take (max_files - length r.files) (keep_if (worth_indexing lower) (f ∷ fs))
        ≡ take (max_files - length r.files) (keep_if (worth_indexing lower) fs)
      → Skipped r w
      → Accounted lower w fs s
      → Accounted lower r (f ∷ fs) s
  unfolding Accounted Skipped
  skip_step same (files, skipped, reasons) (a, b, c) =
      let same_length = ap length files in
      (
        subst (λ x. s.files ≡ x ++ take (max_files - length x) (keep_if (worth_indexing lower) fs))
              files a
            ∙ ap (λ x. r.files ++ x) (sym same),
        omega arith,
        omega arith,
      )

  collect_step :
      length r.files < max_files
      → worth_indexing lower f ≡ true
      → Collected f r w
      → Accounted lower w fs s
      → Accounted lower r (f ∷ fs) s
  unfolding Accounted Collected
  collect_step room worth (files, skipped, reasons) (a, b, c) =
      let longer : length w.files ≡ length r.files + 1 =
        ap length files ∙ length-append r.files (f ∷ []) in
      let space : max_files - length r.files ≡ suc (max_files - length w.files) = omega arith in
      (
        a
            ∙ ap (λ x. x ++ take (max_files - length w.files) (keep_if (worth_indexing lower) fs))
                files
            ∙ append_assoc r.files (f ∷ []) _
            ∙ rw (space, worth) refl,
        omega arith,
        omega arith,
      )

take_full :
    (n : ℕ) (xs ys : List File) (r : WalkResult)
    → n ≤ length r.files
    → take (n - length r.files) xs ≡ take (n - length r.files) ys
take_full n xs ys r full =
    let none_left : n - length r.files ≡ 0 = omega (arith, full) in rw none_left refl

walk_files-Accounted :
    (lower : Text → Text) (r : WalkResult) (fs : List File)
    → Accounted lower r fs (walk_files lower r fs)
unfolding Accounted walk_files
walk_files-Accounted lower r [] = (
  sym (rw (take_nil (max_files - length r.files)) (append-nil r.files)),
  omega arith,
  omega arith,
)
walk_files-Accounted lower r (f ∷ fs) =
    let w = walk_file lower r f in
    let rest = walk_files-Accounted lower w fs in
    elim (walk_file_cases lower r f) [
      | inl (full, s) ↦
          skip_step lower r w (walk_files lower w fs) f fs (take_full max_files _ _ r full) s rest
      | inr (room, inl (worth, c)) ↦
          collect_step lower r w (walk_files lower w fs) f fs room worth c rest
      | inr (room, inr (idle, s)) ↦
          skip_step lower r w (walk_files lower w fs) f fs (rw idle refl) s rest
    ]

-- The walk returns. Of the files that no symlink and no ignored directory leads to, it collects the
-- first `max_files` that are worth indexing, in their order; each other one is counted as skipped, and
-- the counts of the reasons add up to that number.
pub walk_repository_files :
    (lower : Text → Text) (root : Listing)
    → (fs : List File) × (r : WalkResult) × (iter_files root ≡ some fs)
      × (walk_repository lower root ≡ some r)
      × (r.files ≡ take max_files (keep_if (worth_indexing lower) fs))
      × (length r.files + r.skipped ≡ length fs)
      × (total r.reasons ≡ r.skipped)
unfolding walk_repository Accounted
walk_repository_files lower root =
    let fs = yielded root ++ below root in
    let a = walk_files-Accounted lower new_result fs in
    (
      fs,
      walk_files lower new_result fs,
      iter_files-below root,
      rw (walk_repository, iter_files-below root) refl,
      a.0,
      omega (arith, a.1),
      omega (arith, a.2),
    )
