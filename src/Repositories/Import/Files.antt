-- ===== src/Repositories/Import/Files.antt =====
-- The documents that an import adds.
use secondbrain_ai.Prelude.{
  ℕ, length, ◌≡◌, ◌≢◌, ◌⊎◌, inl, inr, true, false, not, any, ◌&&◌, Bool-cases, All-append, All-mono,
  keep_if-mem, refl, sym, subst, ap, ap₂, ◌∙◌, Option, none, some, List, [], ◌∷◌, ◌++◌, flatten,
  All, append_assoc, append-nil,
}
use mathlib.Core.List.{map-append, Memᴰ}
use secondbrain_ai.Prelude.Text.{Text, text_eq, text_eq→eq}
use secondbrain_ai.Uploads.Guard.{Yielded}
use secondbrain_ai.Prelude.Outcome.{ok, raised}
use secondbrain_ai.Documents.{Document, find_by_content_hash}
use secondbrain_ai.Uploads.{World}
use secondbrain_ai.Uploads.Guard.{UploadError}
use secondbrain_ai.Uploads.Storage.{Object, StoredObject, Disk, put, delete_object}
use secondbrain_ai.Repositories.Import.{
  CheckoutFile, Importer, imported_document, Round, unless_owned, after_store, import_file,
  next_file, import_each, committed, import_files,
}
use secondbrain_ai.Repositories.Import.Twins.{
  NoTwins, Owned, found-Owned, not_found-Different, NoTwins-append, Owned-append, Owned-new,
}
use secondbrain_ai.Repositories.Import.Rounds.{
  hash_of, key_of, DistinctKeys, object_of, Stores, Imported, ok_inj, add_ids_ok,
}

only : (g f : CheckoutFile) → Memᴰ g (f ∷ []) → g ≡ f
only g f (Memᴰ.head same) = same
only g f (Memᴰ.tail m) = elim m [ ]

delete-keeps :
    (disk : Disk) (key : Text) (objects : List Object) (o : Object)
    → Memᴰ o objects
    → o.key ≢ key
    → Memᴰ o (delete_object disk key objects).0
unfolding delete_object
delete-keeps disk key objects o m other =
    elim (Bool-cases (disk.removable key && any (λ x. text_eq x.key key) objects)) [
      | inl removes ↦ rw removes (
          keep_if-mem (λ x. not (text_eq x.key key)) objects o m
            (stays_in (Bool-cases (text_eq o.key key))))
      | inr kept ↦ rw kept m
    ]
  where
    stays_in :
        (text_eq o.key key ≡ true) ⊎ (text_eq o.key key ≡ false) → not (text_eq o.key key) ≡ true
    stays_in (inl same) = absurd (other (text_eq→eq o.key key same))
    stays_in (inr differs) = rw differs refl

-- A call that is a run of the model, by what it returned.
returned_as :
    {i : Importer} {files : List CheckoutFile} {w x w' : World} {more ids : List ℕ}
    → ◌≡◌ {A = Round (List ℕ)} (x, ok more) (w', ok ids)
    → Imported i files w more x
    → Imported i files w ids w'
returned_as {i = i} {files = files} {w = w} {x = x} {more = more} {ids = ids} h done =
    subst (λ y. Imported i files w ids y) (ap (λ (r : Round (List ℕ)). r.0) h)
      (subst (λ k. Imported i files w k x) (ok_inj _ _ (ap (λ (r : Round (List ℕ)). r.1) h)) done)

module _ (i : Importer) where
  unless_owned-Imported :
      (f : CheckoutFile) (stored : StoredObject) (o : Option Document) (w w' : World) (ids : List ℕ)
      → stored.content_hash ≡ hash_of i f
      → stored.key ≡ key_of i f
      → find_by_content_hash stored.content_hash i.owner_id w.documents ≡ o
      → NoTwins i.owner_id w.documents
      → unless_owned i f stored o (record w { objects = object_of i f ∷ w.objects }) ≡ (w', ok ids)
      → Imported i (f ∷ []) w ids w'
  unfolding unless_owned imported_document
  unless_owned-Imported f stored (some existing) w w' ids same named found twins h =
      returned_as h record {
        added = [];
        grown = sym (append-nil w.documents);
        named = refl;
        stored = tt;
        owned = (
          found-Owned (hash_of i f) i.owner_id w.documents existing (
              subst (λ k. find_by_content_hash k i.owner_id w.documents ≡ some existing) same
                found),
          tt,
        );
        apart = twins;
        stays = λ o m others.
            delete-keeps i.disk stored.key (object_of i f ∷ w.objects) o (Memᴰ.tail m)
              (subst (λ k. o.key ≢ k) (sym named) others.0);
      }
  unless_owned-Imported f stored none w w' ids same named found twins h =
      let d = imported_document i f stored in
      returned_as h record {
        added = d ∷ [];
        grown = refl;
        named = refl;
        stored = ((f, Memᴰ.head refl, named, same, Memᴰ.head refl), tt);
        owned = (
          subst (λ k. Owned i.owner_id k (w.documents ++ d ∷ [])) same
              (Owned-new i.owner_id w.documents d refl),
          tt,
        );
        apart =
            NoTwins-append i.owner_id w.documents d twins
              (not_found-Different stored.content_hash i.owner_id w.documents found);
        stays = λ o m others. Memᴰ.tail m;
      }

  stored_file :
      (f : CheckoutFile) (chunks : List (List ℕ)) (e : Option UploadError) (w w' : World)
      (ids : List ℕ)
      → NoTwins i.owner_id w.documents
      → f.contents ≡ (chunks, e)
      → after_store i f w.documents (put i.disk (key_of i f) (chunks, e) w.objects) ≡ (w', ok ids)
      → Imported i (f ∷ []) w ids w'
  unfolding after_store put
  stored_file f chunks (some e) w w' ids twins same k =
      let both : raised e ≡ ok ids = ap (λ (r : Round (List ℕ)). r.1) k in cc
  stored_file f chunks none w w' ids twins same k =
      let bytes = ap (λ (y : Yielded). flatten y.0) same in
      let stored : StoredObject = record {
        key = key_of i f;
        size_bytes = length (flatten chunks);
        content_hash = i.disk.sha256 (flatten chunks);
      } in
      unless_owned-Imported f stored
        (find_by_content_hash (i.disk.sha256 (flatten chunks)) i.owner_id w.documents) w w' ids
        (ap i.disk.sha256 (sym bytes)) refl refl twins
        (subst
          (λ b.
            unless_owned i f stored
              (find_by_content_hash (i.disk.sha256 (flatten chunks)) i.owner_id w.documents)
              (record w { objects = record { key = key_of i f; bytes = b } ∷ w.objects })
            ≡ (w', ok ids))
          (sym bytes) k)

  import_file-Imported :
      (f : CheckoutFile) (w w' : World) (ids : List ℕ)
      → NoTwins i.owner_id w.documents
      → import_file i f w ≡ (w', ok ids)
      → Imported i (f ∷ []) w ids w'
  unfolding import_file
  import_file-Imported f w w' ids twins h = by_contents f.contents refl h
    where
      by_contents :
          (y : Yielded)
          → f.contents ≡ y
          → after_store i f w.documents (put i.disk (key_of i f) y w.objects) ≡ (w', ok ids)
          → Imported i (f ∷ []) w ids w'
      by_contents (chunks, e) same k = stored_file f chunks e w w' ids twins same k

  next_file_ok :
      (r : Round (List ℕ)) (rest : World → Round (List ℕ)) (w' : World) (ids : List ℕ)
      → next_file r rest ≡ (w', ok ids)
      → (w : World) × (first : List ℕ) × (later : List ℕ) × (r ≡ (w, ok first))
        × (rest w ≡ (w', ok later))
        × (ids ≡ first ++ later)
  next_file_ok (w, raised e) rest w' ids h =
      let both : raised e ≡ ok ids = ap (λ (r : Round (List ℕ)). r.1) h in cc
  next_file_ok (w, ok first) rest w' ids h =
      let (later, done, same) = add_ids_ok first (rest w) w' ids h in
      (w, first, later, refl, done, same)

  -- One file and then the others.
  next-Imported :
      (f : CheckoutFile) (fs : List CheckoutFile) (w x w' : World) (first later : List ℕ)
      → All (λ g. key_of i f ≢ key_of i g) fs
      → Imported i (f ∷ []) w first x
      → Imported i fs x later w'
      → Imported i (f ∷ fs) w (first ++ later) w'
  next-Imported f fs w x w' first later new one rest = record {
    added = one.added ++ rest.added;
    grown =
        rest.grown
        ∙ ap (λ (ds : List Document). ds ++ rest.added) one.grown
        ∙ append_assoc w.documents one.added rest.added;
    named =
        map-append (λ (d : Document). d.id) one.added rest.added
        ∙ ap₂ (λ (a b : List ℕ). a ++ b) one.named rest.named;
    stored =
        All-append (Stores i (f ∷ fs) w'.objects) one.added rest.added
          (All-mono (Stores i (f ∷ []) x.objects) (Stores i (f ∷ fs) w'.objects) one.added
            (λ d s. still_stored d s) one.stored)
          (All-mono (Stores i fs w'.objects) (Stores i (f ∷ fs) w'.objects) rest.added
            (λ d s. (s.0, Memᴰ.tail s.1, s.2, s.3, s.4)) rest.stored);
    owned = (
      subst (Owned i.owner_id (hash_of i f)) (sym rest.grown)
          (Owned-append i.owner_id (hash_of i f) x.documents rest.added one.owned.0),
      rest.owned,
    );
    apart = rest.apart;
    stays = λ o m others. rest.stays o (one.stays o m (others.0, tt)) others.1;
  }
    where
      still_stored : (d : Document) → Stores i (f ∷ []) x.objects d → Stores i (f ∷ fs) w'.objects d
      still_stored d (g, m, key, hash, o) =
          let same = only g f m in
          (
            g,
            Memᴰ.head same,
            key,
            hash,
            rest.stays (object_of i g) o
                (subst (λ y. All (λ z. key_of i y ≢ key_of i z) fs) (sym same) new),
          )

  import_each-Imported :
      (files : List CheckoutFile) (w w' : World) (ids : List ℕ)
      → DistinctKeys i files
      → NoTwins i.owner_id w.documents
      → import_each i files w ≡ (w', ok ids)
      → Imported i files w ids w'
  unfolding import_each
  import_each-Imported [] w w' ids new twins h = returned_as h record {
    added = [];
    grown = sym (append-nil w.documents);
    named = refl;
    stored = tt;
    owned = tt;
    apart = twins;
    stays = λ o m others. m;
  }
  import_each-Imported (f ∷ fs) w w' ids new twins h =
      let (between, first, later, one, rest, both) =
        next_file_ok (import_file i f w) (λ x. import_each i fs x) w' ids h in
      let begun = import_file-Imported f w between first twins one in
      let ended = import_each-Imported fs between w' later new.1 begun.apart rest in
      subst (λ k. Imported i (f ∷ fs) w k w') (sym both)
        (next-Imported f fs w between w' first later new.0 begun ended)

-- If the import of a checkout's files returns, and the keys that it draws are distinct, then rows with the
-- identifiers that it returns were added to those before; each is of one of the files, and its object is
-- stored with the bytes of the file; a document of the owner's has the hash of each file, and no two of the
-- owner's have one hash, if none had before, so that neither files that are equal to each other nor files that
-- the owner has already are kept twice; and all objects with other keys stay.
pub import_files-Imported :
    (i : Importer) (files : List CheckoutFile) (w w' : World) (ids : List ℕ)
    → DistinctKeys i files
    → NoTwins i.owner_id w.documents
    → import_files i files w ≡ (w', ok ids)
    → Imported i files w ids w'
unfolding import_files
import_files-Imported i files w w' ids new twins h = by_round (import_each i files w) refl h
  where
    by_round :
        (r : Round (List ℕ))
        → import_each i files w ≡ r
        → committed w.documents r ≡ (w', ok ids)
        → Imported i files w ids w'
    by_round (x, ok more) e k = import_each-Imported i files w w' ids new twins (e ∙ k)
    by_round (x, raised e') e k =
        let both : raised e' ≡ ok ids = ap (λ (r : Round (List ℕ)). r.1) k in cc

-- If it raises, no row is added, whichever of the files it was.
pub import_files_rolled_back :
    (i : Importer) (files : List CheckoutFile) (w w' : World) (e : UploadError)
    → import_files i files w ≡ (w', raised e)
    → w'.documents ≡ w.documents
unfolding import_files
import_files_rolled_back i files w w' e h = by_round (import_each i files w) h
  where
    by_round :
        (r : Round (List ℕ)) → committed w.documents r ≡ (w', raised e) → w'.documents ≡ w.documents
    by_round (x, ok more) k =
        let both : ok more ≡ raised e = ap (λ (r : Round (List ℕ)). r.1) k in cc
    by_round (x, raised e') k = sym (ap (λ (r : Round (List ℕ)). r.0.documents) k)
