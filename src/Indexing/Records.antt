-- ===== src/Indexing/Records.antt =====
-- The vectors of rows, and what `upsert` of the vector store keeps, for backend/app/services/indexing.py.
use secondbrain_ai.Prelude.{
  ℕ, ◌≡◌, ◌≢◌, refl, sym, subst, inl, inr, Bool, true, Option, none, some, List, [], ◌∷◌, arith,
  keep_if, any, All, All-mono, Bool-cases, ◌==◌,
}
use mathlib.Core.List.{Memᴰ}
use mathlib.Core.List.Memᴰ
use secondbrain_ai.Documents.{DocumentChunk}
use secondbrain_ai.Indexing.Vectors.{
  VectorRecord, record_of, put_record, records_of, upsert, delete_by_document,
}

-- There is a vector with this identifier.
unfoldable pub Present : ℕ → List VectorRecord → Type 0
Present i vectors = (v : VectorRecord) × Memᴰ v vectors × (v.id ≡ i)

any-Mem {ℓ} :
    {A : Type ℓ} (p : A → Bool) (xs : List A) → any p xs ≡ true → (x : A) × Memᴰ x xs × (p x ≡ true)
any-Mem p [] h = cc
any-Mem p (x ∷ xs) h = elim (Bool-cases (p x)) [
  | inl yes_x ↦ (x, Memᴰ.head refl, yes_x)
  | inr no_x ↦
      let later : any p xs ≡ true = ground arith in
      let (y, m, e) = any-Mem p xs later in (y, Memᴰ.tail m, e)
]

Mem-keep_if {ℓ} :
    {A : Type ℓ} (p : A → Bool) (x : A) (xs : List A)
    → Memᴰ x xs
    → p x ≡ true
    → Memᴰ x (keep_if p xs)
Mem-keep_if p x [] m h = elim m [ ]
Mem-keep_if p x (y ∷ ys) (Memᴰ.head e) h =
    let test : p y ≡ true = subst (λ z. p z ≡ true) e h in rw test (Memᴰ.head e)
Mem-keep_if p x (y ∷ ys) (Memᴰ.tail m) h = elim (Bool-cases (p y)) [
  | inl yes_y ↦ rw yes_y (Memᴰ.tail (Mem-keep_if p x ys m h))
  | inr no_y ↦ rw no_y (Mem-keep_if p x ys m h)
]

-- A vector of the document with a row that has its identifier and its text.
unfoldable pub Backed : ℕ → List DocumentChunk → VectorRecord → Type 0
Backed id rows v =
    v.document_id ≡ id → (r : DocumentChunk) × Memᴰ r rows × (v.id ≡ r.id) × (v.text ≡ r.content)

pub delete_by_document-Backed :
    (id : ℕ) (rows : List DocumentChunk) (vectors : List VectorRecord)
    → All (Backed id rows) (delete_by_document id vectors)
unfolding delete_by_document
delete_by_document-Backed id rows [] = tt
delete_by_document-Backed id rows (v ∷ vs) = elim (Bool-cases (v.document_id == id)) [
  | inl same ↦ rw same (delete_by_document-Backed id rows vs)
  | inr other ↦
      let apart : v.document_id ≢ id = ground arith in
      rw other (vacuous apart, delete_by_document-Backed id rows vs)
]
  where
    vacuous : v.document_id ≢ id → Backed id rows v
    vacuous n = unfold Backed in λ e. absurd (n e)

put_record_lem :
    (r : VectorRecord) (o : Option (List VectorRecord)) (records : List VectorRecord)
    → put_record r o ≡ some records
    → (rest : List VectorRecord) × (o ≡ some rest) × (records ≡ r ∷ rest)
put_record_lem r none records h = cc
put_record_lem r (some rs) records h = (rs, refl, cc)

-- The records of some rows: one for each, with its identifier and its text.
pub records_of_lem :
    (id : ℕ) (rows batch : List DocumentChunk) (vectors : List (List ℕ))
    (records : List VectorRecord)
    → All (λ r. Memᴰ r rows) batch
    → records_of batch vectors ≡ some records
    → All (Backed id rows) records × All (λ r. Present r.id records) batch
unfolding records_of Backed Present
records_of_lem id rows [] [] records inside h = let e : records ≡ [] = cc in (rw e tt, tt)
records_of_lem id rows [] (v ∷ vs) records inside h = cc
records_of_lem id rows (r ∷ rs) [] records inside h = cc
records_of_lem id rows (r ∷ rs) (v ∷ vs) records inside h =
    let (rest, e, shape) = put_record_lem (record_of r v) (records_of rs vs) records h in
    let (backed, present) = records_of_lem id rows rs vs rest inside.1 e in
    subst (λ x. All (Backed id rows) x × All (λ q. Present q.id x) (r ∷ rs)) (sym shape)
      (
        (own r v inside.0, backed),
        ((record_of r v, Memᴰ.head refl, refl), All-mono _ _ rs (λ q p. kept q p) present),
      )
  where
    own : (q : DocumentChunk) (x : List ℕ) → Memᴰ q rows → Backed id rows (record_of q x)
    own q x m = λ e. (q, m, refl, refl)

    kept :
        {x : VectorRecord} {xs : List VectorRecord} (q : DocumentChunk)
        → Present q.id xs
        → Present q.id (x ∷ xs)
    kept q (y, m, e) = (y, Memᴰ.tail m, e)

-- An upsert keeps what is backed, and keeps an identifier that is present.
pub kept_or_replaced :
    (i : ℕ) (records vectors : List VectorRecord)
    → Present i vectors
    → Present i (upsert records vectors)
unfolding upsert Present
kept_or_replaced i records vectors (v, m, e) = elim (Bool-cases (any (λ r. v.id == r.id) records)) [
  | inl replaced ↦
      let (r, n, same) = any-Mem (λ x. v.id == x.id) records replaced in
      (r, Memᴰ.append_right _ n, ground arith)
  | inr other ↦ (v, Memᴰ.append_left records (Mem-keep_if _ v vectors m (rw other refl)), e)
]
