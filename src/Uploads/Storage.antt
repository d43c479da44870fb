-- ===== src/Uploads/Storage.antt =====
-- backend/app/services/storage/local.py: `LocalObjectStorage`.
use secondbrain_ai.Prelude.{
  ℕ, ◌+◌, Bool, true, false, not, ◌&&◌, none, some, List, [], ◌∷◌, ◌++◌, length, take, drop, all,
  any, keep_if, flatten, ltb, leb, if◌then◌else◌,
}
use secondbrain_ai.Prelude.Text.{Text, codes, text_eq, starts_with}
use secondbrain_ai.Prelude.Outcome.{Outcome, ok, raised}
use secondbrain_ai.Prelude.Paths.{path_name, suffix}
use secondbrain_ai.Uploads.Guard.{UploadError, Yielded}

-- A file below the root, by its key.
pub record Object : Type 0 where
  pub key : Text
  pub bytes : List ℕ

-- `StoredObject`
pub record StoredObject : Type 0 where
  pub key : Text
  pub size_bytes : ℕ
  pub content_hash : ℕ

-- SHA-256, whether `os.remove` of a file that is there works, and `str.isalnum` of a character.
pub record Disk : Type 0 where
  pub sha256 : List ℕ → ℕ
  pub removable : Text → Bool
  pub is_alnum : ℕ → Bool

-- `sanitize_extension`
unfoldable pub sanitize_extension : Disk → (Text → Text) → Text → Text
unfolding suffix path_name
sanitize_extension disk lower filename =
    let ext = lower (suffix (path_name filename)) in
    if ltb 1 (length ext) && leb (length ext) 16 && all disk.is_alnum (drop 1 ext) then ext else []

-- `_generate_key`, given the owner's identifier and the new one in hexadecimal.
unfoldable pub generate_key : Disk → (Text → Text) → Text → Text → Text → Text
unfolding sanitize_extension
generate_key disk lower owner hex filename =
    owner
    ++ (codes "/"
        ++ (take 2 hex
            ++ (codes "/"
                ++ (take 2 (drop 2 hex)
                    ++ (codes "/" ++ (hex ++ sanitize_extension disk lower filename))))))

-- `delete`, which is `_unlink_quietly`.
unfoldable pub delete_object : Disk → Text → List Object → List Object × Bool
unfolding text_eq
delete_object disk key objects =
    if disk.removable key && any (λ o. text_eq o.key key) objects
    then (keep_if (λ o. not (text_eq o.key key)) objects, true)
    else (objects, false)

-- `put`, with the bytes of the chunks that the stream yields: an exception removes the file.
unfoldable pub put :
    Disk → Text → Yielded → List Object → List Object × Outcome UploadError StoredObject
unfolding delete_object
put disk key (chunks, some e) objects =
    ((delete_object disk key (record { key = key; bytes = flatten chunks } ∷ objects)).0, raised e)
put disk key (chunks, none) objects = (
  record { key = key; bytes = flatten chunks } ∷ objects,
  ok (record {
    key = key;
    size_bytes = length (flatten chunks);
    content_hash = disk.sha256 (flatten chunks);
  }),
)

-- `delete_prefix`: the objects whose keys begin with the prefix, which stand in its directory.
unfoldable pub delete_prefix : Disk → Text → List Object → List Object × ℕ
unfolding starts_with
delete_prefix disk prefix [] = ([], 0)
delete_prefix disk prefix (o ∷ os) =
    let rest = delete_prefix disk prefix os in
    if starts_with prefix o.key && disk.removable o.key
    then (rest.0, rest.1 + 1)
    else (o ∷ rest.0, rest.1)
