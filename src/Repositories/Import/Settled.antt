-- ===== src/Repositories/Import/Settled.antt =====
-- How an import ends.
use secondbrain_ai.Prelude.{
  ℕ, ◌≡◌, refl, sym, subst, ap, ◌∙◌, ◌⊎◌, inl, inr, Option, none, some, List, [], take, length,
  ==_iff,
}
use secondbrain_ai.Prelude.Text.{Text}
use secondbrain_ai.Prelude.Outcome.{Outcome, ok, raised}
use secondbrain_ai.Parsing.Pipeline.{Archive}
use secondbrain_ai.Repositories.Walker.{WalkResult, walk_repository}
use secondbrain_ai.Repositories.Git.{RepositoryRef}
use secondbrain_ai.Repositories.Import.{Round, import_files}
use secondbrain_ai.Repositories.Import.Status.{
  RepositoryStatus, cloning, importing, ready, failed, Repository, Imports, ImportFailure,
  unexpected_error, ImportServices, if_owned, with_repository, set_status, text_or_none,
  finish_import, import_message, fail_import, collection_or_new, collection_of, ensure_collection,
  run_jobs, after_jobs, with_files, after_files, import_into, after_walk, after_clone,
  import_repository,
}

-- The row of the owner's repository.
abbrev pub HasRow : ℕ → Imports → Type 0
HasRow owner x = (r : Repository) × (x.repository ≡ some r) × (r.owner_id ≡ owner)

-- A repository that is ready, of the commit that was cloned and with the counts of the walk, or one
-- that failed and has a message.
abbrev pub Ended : ImportServices → RepositoryRef → Repository → Type 0
Ended s ref r =
    ((sha : Text) × (walk : WalkResult) × (s.clone ref ≡ ok sha)
      × (walk_repository s.lower s.checkout ≡ some walk)
      × (r.status ≡ ready)
      × (r.error_message ≡ none)
      × (r.commit_sha ≡ text_or_none sha)
      × (r.skipped_count ≡ walk.skipped))
    ⊎ ((failure : ImportFailure) × (r.status ≡ failed)
        × (r.error_message ≡ some (take 1000 (import_message failure))))

abbrev pub EndedRow : ImportServices → ℕ → RepositoryRef → Imports → Type 0
EndedRow s owner ref x =
    (r : Repository) × (x.repository ≡ some r) × (r.owner_id ≡ owner) × Ended s ref r

if_owned_lem :
    (owner : ℕ) (change : Repository → Repository) (r : Repository)
    → r.owner_id ≡ owner
    → if_owned owner change (some r) ≡ some (change r)
unfolding if_owned
if_owned_lem owner change r h = rw ((==_iff r.owner_id owner).1 h) refl

with_repository_lem :
    (owner : ℕ) (change : Repository → Repository) (x : Imports) (r : Repository)
    → x.repository ≡ some r
    → r.owner_id ≡ owner
    → (with_repository (if_owned owner change) x).repository ≡ some (change r)
with_repository_lem owner change x r h o =
    ap (if_owned owner change) h ∙ if_owned_lem owner change r o

set_status-HasRow :
    (owner : ℕ) (status : RepositoryStatus) (x : Imports)
    → HasRow owner x
    → HasRow owner (set_status owner status x)
unfolding set_status
set_status-HasRow owner status x (r, h, o) = (_, with_repository_lem owner _ x r h o, o)

ensure_collection-HasRow :
    (s : ImportServices) (owner : ℕ) (ref : RepositoryRef) (x : Imports)
    → HasRow owner x
    → HasRow owner (ensure_collection s owner ref x).0
unfolding ensure_collection
ensure_collection-HasRow s owner ref x (r, h, o) =
    subst (λ y. HasRow owner (collection_of s owner ref y x).0) (sym h)
      (by_collection r.collection_id)
  where
    by_collection : (c : Option ℕ) → HasRow owner (collection_or_new s owner ref r c x).0
    by_collection none = (_, refl, o)
    by_collection (some c) = (r, h, o)

module _ (s : ImportServices) (owner : ℕ) (ref : RepositoryRef) where
  fail_import-EndedRow :
      (failure : ImportFailure) (x : Imports)
      → HasRow owner x
      → EndedRow s owner ref (fail_import owner failure x)
  unfolding fail_import
  fail_import-EndedRow failure x (r, h, o) =
      (_, with_repository_lem owner _ x r h o, o, inr (failure, refl, refl))

  after_jobs-EndedRow :
      (x : Imports) (j : Archive × Outcome Text (Unit {0}))
      → EndedRow s owner ref x
      → EndedRow s owner ref (after_jobs owner x j)
  unfolding after_jobs
  after_jobs-EndedRow x (a, ok u) h = h
  after_jobs-EndedRow x (a, raised message) (r, h, o, ended) =
      fail_import-EndedRow (unexpected_error message) (record x { archive = a }) (r, h, o)

  after_files-EndedRow :
      (sha : Text) (walk : WalkResult) (x : Imports) (y : Round (List ℕ))
      → s.clone ref ≡ ok sha
      → walk_repository s.lower s.checkout ≡ some walk
      → HasRow owner x
      → EndedRow s owner ref (after_files s owner sha walk.skipped x y)
  unfolding after_files
  after_files-EndedRow sha walk x (w, raised e) cloned walked h =
      fail_import-EndedRow (unexpected_error (s.storage_message e)) (with_files w x) h
  after_files-EndedRow sha walk x (w, ok ids) cloned walked (r, h, o) =
      let y = finish_import owner sha (length ids) walk.skipped (with_files w x) in
      after_jobs-EndedRow y (run_jobs s owner ids y.archive) (
        unfold finish_import in
        (
          _,
          with_repository_lem owner _ (with_files w x) r h o,
          o,
          inl (sha, walk, cloned, walked, refl, refl, refl, refl),
        ))

  import_into-EndedRow :
      (sha : Text) (walk : WalkResult) (y : Imports × ℕ)
      → s.clone ref ≡ ok sha
      → walk_repository s.lower s.checkout ≡ some walk
      → HasRow owner y.0
      → EndedRow s owner ref (import_into s owner sha walk y)
  unfolding import_into
  import_into-EndedRow sha walk (x, collection) cloned walked h =
      after_files-EndedRow sha walk x
        (import_files
          (record {
            disk = s.disk;
            lower = s.lower;
            owner_id = owner;
            owner_name = s.owner_name;
            collection_id = collection;
          })
          (s.located walk.files)
          (record { documents = x.archive.world.documents; objects = x.objects }))
        cloned walked h

  after_walk-EndedRow :
      (sha : Text) (o : Option WalkResult) (x : Imports)
      → s.clone ref ≡ ok sha
      → walk_repository s.lower s.checkout ≡ o
      → HasRow owner x
      → EndedRow s owner ref (after_walk s owner ref sha o x)
  unfolding after_walk
  after_walk-EndedRow sha none x cloned walked h = fail_import-EndedRow (unexpected_error []) x h
  after_walk-EndedRow sha (some walk) x cloned walked h =
      import_into-EndedRow sha walk (ensure_collection s owner ref x) cloned walked
        (ensure_collection-HasRow s owner ref x h)

  after_clone-EndedRow :
      (o : Outcome ImportFailure Text) (x : Imports)
      → s.clone ref ≡ o
      → HasRow owner x
      → EndedRow s owner ref (after_clone s owner ref o x)
  unfolding after_clone
  after_clone-EndedRow (raised failure) x cloned h = fail_import-EndedRow failure x h
  after_clone-EndedRow (ok sha) x cloned h =
      after_walk-EndedRow sha (walk_repository s.lower s.checkout) (set_status owner importing x)
        cloned refl (set_status-HasRow owner importing x h)

  -- The import of a repository that its owner has ends with the row ready, with the commit that was
  -- cloned and the number of files that the walk skipped, or failed with the first 1000 characters of a
  -- message: whatever git, the storage, the parsers, the chunker, the embedder and the vector store
  -- raise, the row does not stay at cloning or importing.
  pub import_repository-EndedRow :
      (x : Imports) → HasRow owner x → EndedRow s owner ref (import_repository s owner ref x)
  unfolding import_repository
  import_repository-EndedRow x h =
      after_clone-EndedRow (s.clone ref) (set_status owner cloning x) refl
        (set_status-HasRow owner cloning x h)
