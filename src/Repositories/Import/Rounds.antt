-- ===== src/Repositories/Import/Rounds.antt =====
-- What an import of files leaves, as rows and as objects.
use secondbrain_ai.Prelude.{ℕ, ◌≡◌, ◌≢◌, sym, ap, List, [], ◌∷◌, ◌++◌, map, flatten, All}
use mathlib.Core.List.{Memᴰ}
use secondbrain_ai.Prelude.Text.{Text}
use secondbrain_ai.Prelude.Outcome.{Outcome, ok, raised}
use secondbrain_ai.Documents.{Document}
use secondbrain_ai.Uploads.{World}
use secondbrain_ai.Uploads.Guard.{UploadError}
use secondbrain_ai.Uploads.Storage.{Object, generate_key}
use secondbrain_ai.Repositories.Import.{CheckoutFile, Importer, Round, add_ids}
use secondbrain_ai.Repositories.Import.Twins.{NoTwins, Owned}

-- The hash of the bytes of a file.
abbrev pub hash_of : Importer → CheckoutFile → ℕ
hash_of i f = i.disk.sha256 (flatten f.contents.0)

abbrev pub ids_of : List Document → List ℕ
ids_of ds = map (λ (d : Document). d.id) ds

-- The key of the object of a file.
abbrev pub key_of : Importer → CheckoutFile → Text
key_of i f = generate_key i.disk i.lower i.owner_name f.object_hex f.name

-- The keys that the files draw are new to each other.
abbrev pub DistinctKeys : Importer → List CheckoutFile → Type 0
DistinctKeys i [] = Unit
DistinctKeys i (f ∷ fs) = All (λ g. key_of i f ≢ key_of i g) fs × DistinctKeys i fs

-- The object of a file, with its bytes.
abbrev pub object_of : Importer → CheckoutFile → Object
object_of i f = record { key = key_of i f; bytes = flatten f.contents.0 }

-- The row is of one of the files: its object is stored with the bytes of the file, and it has their hash.
abbrev pub Stores : Importer → List CheckoutFile → List Object → Document → Type 0
Stores i files objects d =
    (f : CheckoutFile) × Memᴰ f files
    × (d.storage_key ≡ key_of i f)
    × (d.content_hash ≡ hash_of i f)
    × Memᴰ (object_of i f) objects

-- The objects whose keys are none of the files' stay.
abbrev pub Stays : Importer → List CheckoutFile → List Object → List Object → Type 0
Stays i files before after =
    (o : Object) → Memᴰ o before → All (λ f. o.key ≢ key_of i f) files → Memᴰ o after

-- What an import leaves: the rows with these identifiers were added, each with its object; a document of the
-- owner's has the hash of each file; no two of the owner's have the same hash; and other objects stay.
pub record Imported (i : Importer) (files : List CheckoutFile) (w : World) (ids : List ℕ)
    (w' : World) : Type 0 where
  pub added : List Document
  pub grown : w'.documents ≡ w.documents ++ added
  pub named : ids_of added ≡ ids
  pub stored : All (Stores i files w'.objects) added
  pub owned : All (λ f. Owned i.owner_id (hash_of i f) w'.documents) files
  pub apart : NoTwins i.owner_id w'.documents
  pub stays : Stays i files w.objects w'.objects

pub ok_inj : (x y : List ℕ) → ◌≡◌ {A = Outcome UploadError (List ℕ)} (ok x) (ok y) → x ≡ y
ok_inj x y e = cc

pub add_ids_ok :
    (first : List ℕ) (r : Round (List ℕ)) (w' : World) (ids : List ℕ)
    → add_ids first r ≡ (w', ok ids)
    → (later : List ℕ) × (r ≡ (w', ok later)) × (ids ≡ first ++ later)
add_ids_ok first (w, raised e) w' ids h =
    let both : raised e ≡ ok ids = ap (λ (r : Round (List ℕ)). r.1) h in cc
add_ids_ok first (w, ok more) w' ids h = (
  more,
  ap (λ (r : Round (List ℕ)). (r.0, ok more)) h,
  sym (ok_inj _ _ (ap (λ (r : Round (List ℕ)). r.1) h)),
)
