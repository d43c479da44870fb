-- ===== src/Uploads/Tests.antt =====
-- Runs of an upload, and instances of its theorems.
use secondbrain_ai.Prelude.{◌≡◌, refl, true, false, none, some, [], ◌∷◌, length, leb, ◌&&◌}
use secondbrain_ai.Prelude.Text.{codes, lower_ascii}
use secondbrain_ai.FileTypes.{FileType, document}
use secondbrain_ai.Uploads.Guard.{
  unsupported_media_type, payload_too_large, Stream, ended, next, guarded,
}
use secondbrain_ai.Uploads.Guard.Accepts.{Judged, bytes_of, guarded-Judged}
use secondbrain_ai.Uploads.{World, Services, Upload, upload, title_from}
use secondbrain_ai.Uploads.Atomic.{Atomic, upload-Atomic}

abbrev pdf : FileType
pdf = record {
  extension = codes ".pdf";
  mime_type = codes "application/pdf";
  category = document;
  signatures = codes "%PDF-" ∷ [];
}

-- The signature arrives in two chunks.
abbrev pdf_stream : Stream
pdf_stream = next (codes "%P") (next (codes "DF-1") ended)

guarded_split_signature : guarded 10 pdf pdf_stream ≡ (codes "%P" ∷ codes "DF-1" ∷ [], none)
unfolding guarded
guarded_split_signature = refl

guarded_too_large : guarded 5 pdf pdf_stream ≡ (codes "%P" ∷ [], some payload_too_large)
unfolding guarded
guarded_too_large = refl

guarded_disguised :
    guarded 5 pdf (next (codes "GIF") ended) ≡ (codes "GIF" ∷ [], some unsupported_media_type)
unfolding guarded
guarded_disguised = refl

guarded-Judged_example : Judged 10 pdf [] (bytes_of pdf_stream) (guarded 10 pdf pdf_stream)
guarded-Judged_example = guarded-Judged 10 pdf pdf_stream

abbrev services : Services
services = record {
  max_upload_bytes = 10;
  disk = record { sha256 = length; removable = λ key. true; is_alnum = λ c. leb 97 c && leb c 122 };
  add_raises = λ d. false;
  lower = lower_ascii;
}

abbrev notes : Upload
notes = record {
  owner_id = 7;
  owner_name = codes "owner";
  filename = codes "a-b.txt";
  stream = next (codes "hi") ended;
  collection_id = none;
  object_hex = codes "abcdef";
  document_id = 3;
}

abbrev empty : World
empty = record { documents = []; objects = [] }

title_from_run : title_from (codes "my-notes_2.txt") ≡ codes "my notes 2"
unfolding title_from
title_from_run = refl

upload-Atomic_example : Atomic services notes empty (upload services notes empty)
upload-Atomic_example = upload-Atomic services notes empty (λ key. refl) tt
