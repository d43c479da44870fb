-- ===== src/Uploads/Atomic.antt =====
-- Rows and objects after `upload` of backend/app/services/uploads/service.py.
use secondbrain_ai.Prelude.{
  ℕ, ◌≤◌, ◌≡◌, ◌≢◌, refl, ap, ◌⊎◌, inl, inr, true, false, not, Option, none, some, List, [], ◌∷◌,
  ◌++◌, flatten, arith, length, keep_if, All, Bool-cases, ◌==◌,
}
use secondbrain_ai.Prelude.Text.{Text, text_eq, text_eq_refl, text_eq→eq}
use secondbrain_ai.Prelude.Outcome.{ok, raised}
use secondbrain_ai.FileTypes.{FileType, detect}
use secondbrain_ai.Documents.{Document, find_by_content_hash}
use secondbrain_ai.Uploads.Guard.{UploadError, unsupported_media_type, add_failed, Yielded, guarded}
use secondbrain_ai.Uploads.Storage.{Object, StoredObject, Disk, put, delete_object, generate_key}
use secondbrain_ai.Uploads.{
  World, Services, Upload, Result, discarded, document_for, add_document, after_search, after_put,
  upload_typed, upload,
}

-- The disk removes the files that it is asked to remove.
abbrev pub Removes : Disk → Type 0
Removes disk = (key : Text) → disk.removable key ≡ true

-- No object has this key.
abbrev pub Fresh : Text → List Object → Type 0
Fresh key objects = All (λ o. o.key ≢ key) objects

keep_if-Fresh :
    (key : Text) (objects : List Object)
    → Fresh key objects
    → keep_if (λ o. not (text_eq o.key key)) objects ≡ objects
keep_if-Fresh key [] h = refl
keep_if-Fresh key (o ∷ os) h = elim (Bool-cases (text_eq o.key key)) [
  | inl same ↦ absurd (h.0 (text_eq→eq o.key key same))
  | inr other ↦ rw other (ap (λ x. o ∷ x) (keep_if-Fresh key os h.1))
]

-- To delete an object that was just put brings the objects back.
delete-put :
    (disk : Disk) (key : Text) (bytes : List ℕ) (objects : List Object)
    → Removes disk
    → Fresh key objects
    → (delete_object disk key (record { key = key; bytes = bytes } ∷ objects)).0 ≡ objects
unfolding delete_object
delete-put disk key bytes objects removes fresh =
    rw (removes key, text_eq_refl key) (keep_if-Fresh key objects fresh)

-- The bytes that passed the guard.
abbrev pub Passed : Services → Upload → FileType → List (List ℕ) → Type 0
Passed s u t chunks =
    (detect s.lower u.filename ≡ some t) × (guarded s.max_upload_bytes t u.stream ≡ (chunks, none))

-- What an upload does: nothing, nothing for the sake of a row that is there, or a row and its object.
abbrev pub Refused : World → Result → Type 0
Refused w result = (e : UploadError) × (result ≡ (w, raised e))

abbrev pub Duplicate : Services → Upload → World → List (List ℕ) → Result → Type 0
Duplicate s u w chunks result =
    (d : Document) × (find_by_content_hash (s.disk.sha256 (flatten chunks)) u.owner_id w.documents
      ≡ some d)
    × (result ≡ (w, ok (record { document = d; was_duplicate = true })))

abbrev pub Added : Services → Upload → World → List (List ℕ) → Result → Type 0
Added s u w chunks result =
    (d : Document) × (find_by_content_hash (s.disk.sha256 (flatten chunks)) u.owner_id w.documents
      ≡ none)
    × (d.owner_id ≡ u.owner_id)
    × (d.content_hash ≡ s.disk.sha256 (flatten chunks))
    × (d.size_bytes ≡ length (flatten chunks))
    × (1 ≤ d.size_bytes)
    × (result ≡ (
      record {
        documents = w.documents ++ d ∷ [];
        objects = record { key = d.storage_key; bytes = flatten chunks } ∷ w.objects;
      },
      ok (record { document = d; was_duplicate = false }),
    ))

abbrev pub Atomic : Services → Upload → World → Result → Type 0
Atomic s u w result =
    Refused w result
    ⊎ ((t : FileType) × (chunks : List (List ℕ)) × Passed s u t chunks
        × (Duplicate s u w chunks result ⊎ Added s u w chunks result))

module _ (s : Services) (u : Upload) (w : World) (t : FileType) (removes : Removes s.disk) where
  key : Text
  key = generate_key s.disk s.lower u.owner_name u.object_hex u.filename

  module _ (chunks : List (List ℕ)) (fresh : Fresh key w.objects) where
    bytes : List ℕ
    bytes = flatten chunks

    stored : StoredObject
    unfolding bytes
    stored = record { key = key; size_bytes = length bytes; content_hash = s.disk.sha256 bytes }

    with_object : World
    unfolding bytes
    with_object = record w { objects = record { key = key; bytes = bytes } ∷ w.objects }

    discarded_lem : discarded s stored with_object ≡ w
    unfolding discarded stored with_object
    discarded_lem = ap (λ x. the_world x) (delete-put s.disk key bytes w.objects removes fresh)
      where
        the_world : List Object → World
        the_world x = record { documents = w.documents; objects = x }

    add_document-Atomic :
        1 ≤ length bytes
        → find_by_content_hash (s.disk.sha256 bytes) u.owner_id w.documents ≡ none
        → Refused w (add_document s stored (document_for s u t stored) with_object)
          ⊎ Added s u w chunks (add_document s stored (document_for s u t stored) with_object)
    unfolding add_document document_for stored with_object bytes
    add_document-Atomic full e = elim (Bool-cases (s.add_raises (document_for s u t stored))) [
      | inl fails ↦
          inl
            (add_failed, rw (add_document, fails) (ap (λ x. (x, raised add_failed)) discarded_lem))
      | inr works ↦ inr (document_for s u t stored, e, refl, refl, refl, full, rw works refl)
    ]

    after_search-Atomic :
        1 ≤ length bytes
        → (o : Option Document)
        → find_by_content_hash (s.disk.sha256 bytes) u.owner_id w.documents ≡ o
        → Refused w (after_search s u t stored o with_object)
          ⊎ (Duplicate s u w chunks (after_search s u t stored o with_object)
              ⊎ Added s u w chunks (after_search s u t stored o with_object))
    unfolding after_search bytes
    after_search-Atomic full (some d) e = inr (
        inl (d, e, ap (λ x. (x, ok (record { document = d; was_duplicate = true }))) discarded_lem))
    after_search-Atomic full none e = elim (add_document-Atomic full e) [
      | inl refused ↦ inl refused
      | inr added ↦ inr (inr added)
    ]

    accepted-Atomic :
        Refused w (after_put s u t w.documents (with_object.objects, ok stored))
        ⊎ (Duplicate s u w chunks (after_put s u t w.documents (with_object.objects, ok stored))
            ⊎ Added s u w chunks (after_put s u t w.documents (with_object.objects, ok stored)))
    unfolding after_put bytes stored with_object
    accepted-Atomic = elim (Bool-cases (length bytes == 0)) [
      | inl empty ↦ inl (
        unsupported_media_type,
        rw (after_put, empty) (ap (λ x. (x, raised unsupported_media_type)) discarded_lem),
      )
      | inr some_bytes ↦
          let full : 1 ≤ length bytes = ground arith in
          rw (after_put, some_bytes)
            (after_search-Atomic full
              (find_by_content_hash (s.disk.sha256 bytes) u.owner_id w.documents) refl)
    ]

  typed-Atomic :
      (y : Yielded)
      → Fresh key w.objects
      → detect s.lower u.filename ≡ some t
      → guarded s.max_upload_bytes t u.stream ≡ y
      → Atomic s u w (after_put s u t w.documents (put s.disk key y w.objects))
  unfolding put with_object stored after_put bytes
  typed-Atomic (chunks, some e) fresh d g = inl (e, refused)
    where
      the_result : List Object → Result
      the_result x = (record { documents = w.documents; objects = x }, raised e)

      refused :
          after_put s u t w.documents (put s.disk key (chunks, some e) w.objects) ≡ (w, raised e)
      refused = ap the_result (delete-put s.disk key (flatten chunks) w.objects removes fresh)
  typed-Atomic (chunks, none) fresh d g = elim (accepted-Atomic chunks fresh) [
    | inl refused ↦ inl refused
    | inr done ↦ inr (t, chunks, (d, g), done)
  ]

-- If the new key is fresh and the disk removes what it is asked to, then an upload either raises and changes
-- nothing; or finds the row of the owner's with the same hash and changes nothing; or adds one object with
-- the bytes that passed the guard, which are some, and one row that names it, with their hash and size.
pub upload-Atomic :
    (s : Services) (u : Upload) (w : World)
    → Removes s.disk
    → Fresh (generate_key s.disk s.lower u.owner_name u.object_hex u.filename) w.objects
    → Atomic s u w (upload s u w)
unfolding upload
upload-Atomic s u w removes fresh = at (detect s.lower u.filename) refl
  where
    at : (o : Option FileType) → detect s.lower u.filename ≡ o → Atomic s u w (upload_typed s u o w)
    at none e = unfold upload_typed in inl (unsupported_media_type, refl)
    at (some t) e =
        unfold upload_typed key in
        typed-Atomic s u w t removes (guarded s.max_upload_bytes t u.stream) fresh e refl
