-- ===== src/Uploads.antt =====
-- backend/app/services/uploads/service.py and backend/app/services/storage/local.py: accepting a file.
pub mod Guard
pub mod Storage
pub mod Atomic
mod Tests
use secondbrain_ai.Prelude.{
  ℕ, ◌+◌, suc, Bool, true, false, not, ◌&&◌, ◌||◌, Option, none, some, List, [], ◌∷◌, ◌++◌, length,
  take, ltb, leb, ◌==◌, map, if◌then◌else◌,
}
use secondbrain_ai.Prelude.Text.{Text, codes, nonempty, strip}
use secondbrain_ai.Prelude.Outcome.{Outcome, ok, raised}
use secondbrain_ai.Prelude.Paths.{stem, path_name}
use secondbrain_ai.FileTypes.{FileType, detect}
use secondbrain_ai.Documents.{
  Document, pending, get_for_owner, find_by_content_hash, delete_document,
}
use secondbrain_ai.Uploads.Guard.{
  UploadError, unsupported_media_type, not_found, add_failed, Stream, guarded,
}
use secondbrain_ai.Uploads.Storage.{
  Object, StoredObject, Disk, put, delete_object, delete_prefix, generate_key,
}

-- The database's rows and the stored objects.
pub record World : Type 0 where
  pub documents : List Document
  pub objects : List Object

-- What the service is given: the limit of the settings, the disk, whether the insertion of the row raises,
-- and `str.lower`.
pub record Services : Type 0 where
  pub max_upload_bytes : ℕ
  pub disk : Disk
  pub add_raises : Document → Bool
  pub lower : Text → Text

-- `UploadResult`
pub record UploadResult : Type 0 where
  pub document : Document
  pub was_duplicate : Bool

-- The arguments of one call, with the identifiers that it draws.
pub record Upload : Type 0 where
  pub owner_id : ℕ
  pub owner_name : Text
  pub filename : Text
  pub stream : Stream
  pub collection_id : Option ℕ
  pub object_hex : Text
  pub document_id : ℕ

abbrev or_text : Text → Text → Text
or_text [] t = t
or_text (c ∷ s) t = c ∷ s

-- An underscore or a dash is a space.
abbrev relaxed : ℕ → ℕ
relaxed c = if c == 95 || c == 45 then 32 else c

-- `_title_from`
unfoldable pub title_from : Text → Text
unfolding strip stem path_name or_text relaxed
title_from filename =
    let name = or_text (strip (stem (path_name filename))) filename in
    or_text (take 512 (strip (map relaxed name))) (take 512 filename)

abbrev pub without_dots : Text → Text
without_dots [] = []
without_dots (c ∷ t) = if c == 46 then without_dots t else c ∷ t

unfoldable pub document_for : Services → Upload → FileType → StoredObject → Document
unfolding title_from
document_for s u t stored = record {
  id = u.document_id;
  owner_id = u.owner_id;
  collection_id = u.collection_id;
  title = title_from u.filename;
  original_filename = take 512 u.filename;
  mime_type = t.mime_type;
  extension = without_dots t.extension;
  size_bytes = stored.size_bytes;
  content_hash = stored.content_hash;
  storage_key = stored.key;
  status = pending;
  error_message = none;
  page_count = none;
  word_count = none;
  blocks_key = none;
  chunk_count = 0;
}

abbrev pub Result : Type 0
Result = World × Outcome UploadError UploadResult

-- The object of the upload is deleted again.
unfoldable pub discarded : Services → StoredObject → World → World
unfolding delete_object
discarded s stored w = record w { objects = (delete_object s.disk stored.key w.objects).0 }

-- The insertion of the row, and what follows if it raises.
unfoldable pub add_document : Services → StoredObject → Document → World → Result
unfolding discarded
add_document s stored d w = if s.add_raises d then (discarded s stored w, raised add_failed) else (
  record w { documents = w.documents ++ d ∷ [] },
  ok (record { document = d; was_duplicate = false }),
)

-- What follows `find_by_content_hash`.
unfoldable pub after_search :
    Services → Upload → FileType → StoredObject → Option Document → World → Result
unfolding discarded add_document document_for
after_search s u t stored (some existing) w =
    (discarded s stored w, ok (record { document = existing; was_duplicate = true }))
after_search s u t stored none w = add_document s stored (document_for s u t stored) w

-- What follows `put`.
unfoldable pub after_put :
    Services
    → Upload
    → FileType
    → List Document
    → List Object × Outcome UploadError StoredObject
    → Result
unfolding discarded after_search find_by_content_hash
after_put s u t documents (objects, raised e) =
    (record { documents = documents; objects = objects }, raised e)
after_put s u t documents (objects, ok stored) =
    let w : World = record { documents = documents; objects = objects } in
    if stored.size_bytes == 0
    then (discarded s stored w, raised unsupported_media_type)
    else after_search s u t stored (find_by_content_hash stored.content_hash u.owner_id documents) w

unfoldable pub upload_typed : Services → Upload → Option FileType → World → Result
unfolding after_put put guarded generate_key
upload_typed s u none w = (w, raised unsupported_media_type)
upload_typed s u (some t) w = after_put s u t w.documents (
    put s.disk (generate_key s.disk s.lower u.owner_name u.object_hex u.filename)
      (guarded s.max_upload_bytes t u.stream) w.objects)

-- `upload`
unfoldable pub upload : Services → Upload → World → Result
unfolding detect upload_typed
upload s u w = upload_typed s u (detect s.lower u.filename) w

unfoldable pub delete_found : Services → Option Document → World → World × Option UploadError
unfolding delete_prefix delete_document
delete_found s none w = (w, some not_found)
delete_found s (some d) w = (
  record {
    documents = delete_document d.id w.documents;
    objects = (delete_prefix s.disk d.storage_key w.objects).0;
  },
  none,
)

-- `delete`: the row first, then the objects, as the transaction sees them.
unfoldable pub delete : Services → ℕ → ℕ → World → World × Option UploadError
unfolding get_for_owner delete_found
delete s id owner w = delete_found s (get_for_owner id owner w.documents) w
