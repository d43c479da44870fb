-- ===== src/Repositories/Import.antt =====
-- backend/app/services/repositories/service.py: the files of a checkout become documents, and the row
-- of the repository says how the import went.
pub mod Rounds
pub mod Twins
pub mod Files
pub mod Status
pub mod Settled
mod Tests
use secondbrain_ai.Prelude.{
  ℕ, Bool, true, false, Option, none, some, List, [], ◌∷◌, ◌++◌, take, length, ◌==◌, if◌then◌else◌,
}
use secondbrain_ai.Prelude.Text.{Text, codes}
use secondbrain_ai.Prelude.Outcome.{Outcome, ok, raised}
use secondbrain_ai.Documents.{Document, DocumentStatus, find_by_content_hash}
use secondbrain_ai.FileTypes.{FileType, detect}
use secondbrain_ai.Uploads.{World, without_dots}
use secondbrain_ai.Uploads.Guard.{UploadError, Yielded}
use secondbrain_ai.Uploads.Storage.{Object, StoredObject, Disk, put, delete_object, generate_key}
use secondbrain_ai.Repositories.Walker.{WalkResult}
use secondbrain_ai.Repositories.Git.{RepositoryRef}

-- A file of the checkout: its path from the root with slashes, its name, what reading it yields, and
-- the identifiers that its object and its row draw.
pub record CheckoutFile : Type 0 where
  pub path : Text
  pub name : Text
  pub contents : Yielded
  pub object_hex : Text
  pub document_id : ℕ

-- The disk, `str.lower`, the owner with the text of the identifier, and the collection.
pub record Importer : Type 0 where
  pub disk : Disk
  pub lower : Text → Text
  pub owner_id : ℕ
  pub owner_name : Text
  pub collection_id : ℕ

abbrev pub mime_of : Option FileType → Text
mime_of none = codes "text/plain"
mime_of (some t) = t.mime_type

abbrev pub extension_of : Option FileType → Text
extension_of none = codes "txt"
extension_of (some t) = without_dots t.extension

unfoldable pub imported_document : Importer → CheckoutFile → StoredObject → Document
unfolding detect
imported_document i f stored = record {
  id = f.document_id;
  owner_id = i.owner_id;
  collection_id = some i.collection_id;
  title = f.path;
  original_filename = take 512 f.path;
  mime_type = mime_of (detect i.lower f.name);
  extension = extension_of (detect i.lower f.name);
  size_bytes = stored.size_bytes;
  content_hash = stored.content_hash;
  storage_key = stored.key;
  status = DocumentStatus.pending;
  error_message = none;
  page_count = none;
  word_count = none;
  blocks_key = none;
  chunk_count = 0;
}

-- What one round of the loop ends with: the rows of the session and the objects, and the identifier
-- of the new row, if there is one.
abbrev pub Round : Type 0 → Type 0
Round A = World × Outcome UploadError A

-- What follows `find_by_content_hash`: bytes that the owner has are not kept twice.
unfoldable pub unless_owned :
    Importer → CheckoutFile → StoredObject → Option Document → World → Round (List ℕ)
unfolding delete_object imported_document
unless_owned i f stored (some existing) w =
    (record w { objects = (delete_object i.disk stored.key w.objects).0 }, ok [])
unless_owned i f stored none w = (
  record w { documents = w.documents ++ imported_document i f stored ∷ [] },
  ok (f.document_id ∷ []),
)

-- What follows `put`.
unfoldable pub after_store :
    Importer
    → CheckoutFile
    → List Document
    → List Object × Outcome UploadError StoredObject
    → Round (List ℕ)
unfolding unless_owned find_by_content_hash
after_store i f documents (objects, raised e) =
    (record { documents = documents; objects = objects }, raised e)
after_store i f documents (objects, ok stored) =
    unless_owned i f stored (find_by_content_hash stored.content_hash i.owner_id documents)
      (record { documents = documents; objects = objects })

-- One round of the loop over the files.
unfoldable pub import_file : Importer → CheckoutFile → World → Round (List ℕ)
unfolding after_store put generate_key
import_file i f w =
    after_store i f w.documents (
      put i.disk (generate_key i.disk i.lower i.owner_name f.object_hex f.name) f.contents
        w.objects)

abbrev pub add_ids : List ℕ → Round (List ℕ) → Round (List ℕ)
add_ids ids (w, raised e) = (w, raised e)
add_ids ids (w, ok more) = (w, ok (ids ++ more))

abbrev pub next_file : Round (List ℕ) → (World → Round (List ℕ)) → Round (List ℕ)
next_file (w, raised e) rest = (w, raised e)
next_file (w, ok ids) rest = add_ids ids (rest w)

unfoldable pub import_each : Importer → List CheckoutFile → World → Round (List ℕ)
unfolding import_file
import_each i [] w = (w, ok [])
import_each i (f ∷ fs) w = next_file (import_file i f w) (λ x. import_each i fs x)

-- The commit at the end; an exception rolls the rows back, and leaves the objects.
abbrev pub committed : List Document → Round (List ℕ) → Round (List ℕ)
committed documents (w, ok ids) = (w, ok ids)
committed documents (w, raised e) = (record w { documents = documents }, raised e)

-- `_import_files`
unfoldable pub import_files : Importer → List CheckoutFile → World → Round (List ℕ)
unfolding import_each
import_files i files w = committed w.documents (import_each i files w)
