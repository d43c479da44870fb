-- ===== src/Repositories/Import/Tests.antt =====
-- A small import, and instances of its theorems.
use secondbrain_ai.Prelude.{
  ℕ, flatten, ◌+◌, ◌≡◌, ◌≢◌, sym, refl, true, false, Option, none, some, List, [], ◌∷◌, ◌++◌,
  length,
}
use secondbrain_ai.Prelude.Text.{Text, codes, lower_ascii, text_eq, text_eq_refl}
use secondbrain_ai.Prelude.Outcome.{ok, raised}
use secondbrain_ai.Uploads.{World}
use secondbrain_ai.Uploads.Storage.{Disk, generate_key}
use secondbrain_ai.Parsing.Registry.{unexpected}
use secondbrain_ai.Repositories.Walker.{nil}
use secondbrain_ai.Repositories.Git.{RepositoryRef, github_ref}
use secondbrain_ai.Repositories.Import.{CheckoutFile, Importer, import_files}
use secondbrain_ai.Repositories.Import.Rounds.{key_of, DistinctKeys, Imported}
use secondbrain_ai.Repositories.Import.Files.{import_files-Imported}
use secondbrain_ai.Repositories.Import.Status.{
  RepositoryStatus, Repository, Imports, ImportServices, repository_error, import_repository,
}
use secondbrain_ai.Repositories.Import.Settled.{EndedRow, import_repository-EndedRow}

-- A hash of one byte and the length.
abbrev digest : List ℕ → ℕ
digest [] = 0
digest (b ∷ bs) = b + length bs

abbrev disk : Disk
disk = record { sha256 = digest; removable = λ key. true; is_alnum = λ c. true }

abbrev importer : Importer
importer = record {
  disk = disk;
  lower = lower_ascii;
  owner_id = 7;
  owner_name = codes "7";
  collection_id = 3;
}

abbrev checkout_file : Text → List ℕ → ℕ → CheckoutFile
checkout_file name bytes id = record {
  path = codes "src/" ++ name;
  name = name;
  contents = (bytes ∷ [], none);
  object_hex = name;
  document_id = id;
}

abbrev first_file : CheckoutFile
first_file = checkout_file (codes "a.py") (65 ∷ []) 1

-- The second file has the bytes of the first.
abbrev second_file : CheckoutFile
second_file = checkout_file (codes "b.py") (65 ∷ []) 2

abbrev third_file : CheckoutFile
third_file = checkout_file (codes "c.py") (70 ∷ []) 3

abbrev files : List CheckoutFile
files = first_file ∷ second_file ∷ third_file ∷ []

abbrev nothing : World
nothing = record { documents = []; objects = [] }

abbrev imported_world : World
imported_world = (import_files importer files nothing).0

imported : import_files importer files nothing ≡ (imported_world, ok (1 ∷ 3 ∷ []))
unfolding import_files flatten
imported = refl

apart : (s t : Text) → text_eq s t ≡ false → s ≢ t
apart s t h e = let same : text_eq s t ≡ true = rw (sym e) (text_eq_refl s) in cc

files-DistinctKeys : DistinctKeys importer files
unfolding generate_key text_eq
files-DistinctKeys = (
  (
    apart (key_of importer first_file) (key_of importer second_file) refl,
    (apart (key_of importer first_file) (key_of importer third_file) refl, tt),
  ),
  ((apart (key_of importer second_file) (key_of importer third_file) refl, tt), (tt, tt)),
)

import_files-Imported_example : Imported importer files nothing (1 ∷ 3 ∷ []) imported_world
import_files-Imported_example =
    import_files-Imported importer files nothing imported_world (1 ∷ 3 ∷ []) files-DistinctKeys tt
      imported

abbrev engine : RepositoryRef
engine = github_ref none (codes "ada") (codes "engine")

-- Git finds no such repository.
abbrev import_services : ImportServices
import_services = record {
  clone = λ ref. raised (repository_error (codes "ada/engine was not found on GitHub."));
  checkout = nil;
  located = λ fs. [];
  storage_message = λ e. [];
  new_collection = 3;
  owner_name = codes "7";
  disk = disk;
  lower = lower_ascii;
  parsing = record {
    read_object = λ key. raised (unexpected []);
    lower = lower_ascii;
    table = [];
    put_raises = λ key. none;
    removable = λ key. true;
    meanwhile = λ w. w;
  };
  indexing = record {
    load_blocks = λ d. none;
    embed_documents = λ texts. ok [];
    delete_raises = λ id. none;
    upsert_raises = λ records. none;
    new_id = λ n. n;
    model_name = [];
    chunker = record { chunk_size = 8; overlap = 2; min_chars = 1 };
    depth = 900;
    batch_size = 1;
  };
}

abbrev imports : Imports
imports = record {
  repository = some (record {
    id = 1;
    owner_id = 7;
    collection_id = none;
    status = RepositoryStatus.pending;
    error_message = none;
    commit_sha = none;
    file_count = 0;
    skipped_count = 0;
  });
  collections = [];
  archive = record { world = record { documents = []; chunks = []; vectors = [] }; derived = [] };
  objects = [];
}

-- A checkout that was cloned.
abbrev cloning_services : ImportServices
cloning_services = record import_services { clone = λ ref. ok (codes "c0ffee") }

abbrev status_of : Option Repository → Option RepositoryStatus
status_of none = none
status_of (some r) = some r.status

imports_ready :
    status_of (import_repository cloning_services 7 engine imports).repository
    ≡ some RepositoryStatus.ready
unfolding import_repository
imports_ready = refl

import_repository-EndedRow_example :
    EndedRow cloning_services 7 engine (import_repository cloning_services 7 engine imports)
import_repository-EndedRow_example =
    import_repository-EndedRow cloning_services 7 engine imports (_, refl, refl)

imports_failed :
    status_of (import_repository import_services 7 engine imports).repository
    ≡ some RepositoryStatus.failed
unfolding import_repository
imports_failed = refl
