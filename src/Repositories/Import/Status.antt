-- ===== src/Repositories/Import/Status.antt =====
-- `import_repository` with the row of the repository: backend/app/models/repository.py and
-- backend/app/services/repositories/service.py.
use secondbrain_ai.Prelude.{
  ℕ, Option, none, some, List, [], ◌∷◌, ◌++◌, take, length, ◌==◌, if◌then◌else◌,
}
use secondbrain_ai.Prelude.Text.{Text, codes}
use secondbrain_ai.Prelude.Outcome.{Outcome, ok, raised}
use secondbrain_ai.Uploads.{World}
use secondbrain_ai.Uploads.Guard.{UploadError}
use secondbrain_ai.Uploads.Storage.{Object, Disk}
use secondbrain_ai.Indexing
use secondbrain_ai.Parsing.Pipeline.{Archive, ParsingServices, parse_then_index}
use secondbrain_ai.Repositories.Walker.{File, Listing, WalkResult, walk_repository}
use secondbrain_ai.Repositories.Git.{RepositoryRef}
use secondbrain_ai.Repositories.Import.{CheckoutFile, Round, import_files}

-- `RepositoryStatus`
pub data RepositoryStatus : Type 0 where
  pending cloning importing ready failed : RepositoryStatus

-- `Repository`, without the columns that only the interface reads.
pub record Repository : Type 0 where
  pub id : ℕ
  pub owner_id : ℕ
  pub collection_id : Option ℕ
  pub status : RepositoryStatus
  pub error_message : Option Text
  pub commit_sha : Option Text
  pub file_count : ℕ
  pub skipped_count : ℕ

-- A collection that an import makes.
pub record Collection : Type 0 where
  pub id : ℕ
  pub owner_id : ℕ
  pub name : Text
  pub description : Text

-- What is committed: the row of this repository, if there is one, the collections, the rows with
-- what parsing and indexing made of them; and the stored objects.
pub record Imports : Type 0 where
  pub repository : Option Repository
  pub collections : List Collection
  pub archive : Archive
  pub objects : List Object

-- What an import raises: a `RepositoryError`, or any other exception.
pub data ImportFailure : Type 0 where
  repository_error : Text → ImportFailure
  unexpected_error : Text → ImportFailure

-- `clone` with the commit that it returns, the checkout then, its files with their paths and bytes,
-- the message of an exception of the storage, the identifier of a new collection, and what files,
-- parsing and indexing need.
pub record ImportServices : Type 0 where
  pub clone : RepositoryRef → Outcome ImportFailure Text
  pub checkout : Listing
  pub located : List File → List CheckoutFile
  pub storage_message : UploadError → Text
  pub new_collection : ℕ
  pub owner_name : Text
  pub disk : Disk
  pub lower : Text → Text
  pub parsing : ParsingServices
  pub indexing : Indexing.Services

-- The row changed, if it is the owner's.
unfoldable pub if_owned : ℕ → (Repository → Repository) → Option Repository → Option Repository
if_owned owner change none = none
if_owned owner change (some r) = if r.owner_id == owner then some (change r) else some r

abbrev pub with_repository : (Option Repository → Option Repository) → Imports → Imports
with_repository change x = record x { repository = change x.repository }

-- `_set_status`
unfoldable pub set_status : ℕ → RepositoryStatus → Imports → Imports
unfolding if_owned
set_status owner status x =
    with_repository (if_owned owner (λ r. record r { status = status; error_message = none })) x

abbrev pub text_or_none : Text → Option Text
text_or_none [] = none
text_or_none (c ∷ t) = some (c ∷ t)

-- `_finalise`
unfoldable pub finish_import : ℕ → Text → ℕ → ℕ → Imports → Imports
unfolding if_owned
finish_import owner commit_sha file_count skipped x =
    with_repository
      (if_owned owner (λ r. record r {
        status = ready;
        commit_sha = text_or_none commit_sha;
        file_count = file_count;
        skipped_count = skipped;
        error_message = none;
      }))
      x

unfoldable pub import_message : ImportFailure → Text
import_message (repository_error message) = message
import_message (unexpected_error message) = codes "An unexpected error occurred: " ++ message

-- `_record_failure`
unfoldable pub fail_import : ℕ → ImportFailure → Imports → Imports
unfolding if_owned import_message
fail_import owner failure x =
    with_repository
      (if_owned owner (λ r. record r {
        status = failed;
        error_message = some (take 1000 (import_message failure));
      }))
      x

abbrev pub collection_for : ImportServices → ℕ → RepositoryRef → Collection
collection_for s owner ref = record {
  id = s.new_collection;
  owner_id = owner;
  name = ref.owner ++ (codes "/" ++ ref.name);
  description = codes "Imported from " ++ ref.clone_url;
}

abbrev pub new_collection_of :
    ImportServices → ℕ → RepositoryRef → Option Repository → Imports → Imports × ℕ
new_collection_of s owner ref o x = (
  record x { repository = o; collections = x.collections ++ collection_for s owner ref ∷ [] },
  s.new_collection,
)

abbrev pub collection_or_new :
    ImportServices → ℕ → RepositoryRef → Repository → Option ℕ → Imports → Imports × ℕ
collection_or_new s owner ref r (some c) x = (x, c)
collection_or_new s owner ref r none x =
    new_collection_of s owner ref (some (record r { collection_id = some s.new_collection })) x

abbrev pub collection_of :
    ImportServices → ℕ → RepositoryRef → Option Repository → Imports → Imports × ℕ
collection_of s owner ref none x = new_collection_of s owner ref none x
collection_of s owner ref (some r) x = collection_or_new s owner ref r r.collection_id x

-- `_ensure_collection`
unfoldable pub ensure_collection : ImportServices → ℕ → RepositoryRef → Imports → Imports × ℕ
ensure_collection s owner ref x = collection_of s owner ref x.repository x

abbrev pub then_job :
    Archive × Outcome Text (Unit {0})
    → (Archive → Archive × Outcome Text (Unit {0}))
    → Archive × Outcome Text (Unit {0})
then_job (a, raised message) next = (a, raised message)
then_job (a, ok u) next = next a

-- The loop over the new documents: the first exception ends it.
unfoldable pub run_jobs : ImportServices → ℕ → List ℕ → Archive → Archive × Outcome Text (Unit {0})
unfolding parse_then_index
run_jobs s owner [] a = (a, ok tt)
run_jobs s owner (id ∷ ids) a =
    then_job (parse_then_index s.parsing s.indexing id owner a) (λ b. run_jobs s owner ids b)

-- The end of the `try`, or the handler.
unfoldable pub after_jobs : ℕ → Imports → Archive × Outcome Text (Unit {0}) → Imports
unfolding fail_import
after_jobs owner x (a, ok u) = record x { archive = a }
after_jobs owner x (a, raised message) =
    fail_import owner (unexpected_error message) (record x { archive = a })

abbrev pub with_files : World → Imports → Imports
with_files w x = record x {
  archive = record x.archive { world = record x.archive.world { documents = w.documents } };
  objects = w.objects;
}

unfoldable pub after_files : ImportServices → ℕ → Text → ℕ → Imports → Round (List ℕ) → Imports
unfolding fail_import finish_import run_jobs after_jobs
after_files s owner sha skipped x (w, raised e) =
    fail_import owner (unexpected_error (s.storage_message e)) (with_files w x)
after_files s owner sha skipped x (w, ok ids) =
    let y = finish_import owner sha (length ids) skipped (with_files w x) in
    after_jobs owner y (run_jobs s owner ids y.archive)

unfoldable pub import_into : ImportServices → ℕ → Text → WalkResult → Imports × ℕ → Imports
unfolding after_files import_files
import_into s owner sha walk (x, collection) = after_files s owner sha walk.skipped x (
    import_files
      (record {
        disk = s.disk;
        lower = s.lower;
        owner_id = owner;
        owner_name = s.owner_name;
        collection_id = collection;
      })
      (s.located walk.files)
      (record { documents = x.archive.world.documents; objects = x.objects }))

-- What follows `walk_repository`, which returns.
unfoldable pub after_walk :
    ImportServices → ℕ → RepositoryRef → Text → Option WalkResult → Imports → Imports
unfolding ensure_collection import_into fail_import
after_walk s owner ref sha none x = fail_import owner (unexpected_error []) x
after_walk s owner ref sha (some walk) x =
    import_into s owner sha walk (ensure_collection s owner ref x)

unfoldable pub after_clone :
    ImportServices → ℕ → RepositoryRef → Outcome ImportFailure Text → Imports → Imports
unfolding fail_import set_status after_walk walk_repository
after_clone s owner ref (raised failure) x = fail_import owner failure x
after_clone s owner ref (ok sha) x =
    after_walk s owner ref sha (walk_repository s.lower s.checkout) (set_status owner importing x)

-- `import_repository`
unfoldable pub import_repository : ImportServices → ℕ → RepositoryRef → Imports → Imports
unfolding set_status after_clone
import_repository s owner ref x = after_clone s owner ref (s.clone ref) (set_status owner cloning x)
