-- ===== src/Repositories/Import/Twins.antt =====
-- Documents of an owner with the same bytes, before and after one more is added.
use secondbrain_ai.Prelude.{
  ℕ, append-mem, append-mem_last, ◌≡◌, ◌≢◌, refl, inl, inr, true, false, ◌&&◌, none, some, List, [],
  ◌∷◌, ◌++◌, arith, All, All-append, Bool-cases, ◌==◌,
}
use mathlib.Core.List.{Memᴰ}
use secondbrain_ai.Documents.{Document, find_one, find_by_content_hash}

-- No two of the owner's documents have the same bytes.
abbrev pub Different : ℕ → Document → Document → Type 0
Different owner d e = e.owner_id ≡ owner → d.content_hash ≢ e.content_hash

abbrev pub NoTwins : ℕ → List Document → Type 0
NoTwins owner [] = Unit
NoTwins owner (d ∷ ds) = (d.owner_id ≡ owner → All (Different owner d) ds) × NoTwins owner ds

-- A stored document of the owner's has bytes with this hash.
abbrev pub Owned : ℕ → ℕ → List Document → Type 0
Owned owner hash ds = (d : Document) × Memᴰ d ds × (d.owner_id ≡ owner) × (d.content_hash ≡ hash)

pub found-Owned :
    (hash owner : ℕ) (ds : List Document) (d : Document)
    → find_by_content_hash hash owner ds ≡ some d
    → Owned owner hash ds
unfolding find_by_content_hash find_one
found-Owned hash owner [] d h = cc
found-Owned hash owner (e ∷ ds) d h =
    elim (Bool-cases (e.owner_id == owner && e.content_hash == hash)) [
      | inl hit ↦ (e, Memᴰ.head refl, has_owner e hit, has_hash e hit)
      | inr miss ↦
          let later : find_by_content_hash hash owner ds ≡ some d =
            rw (find_by_content_hash, find_one, miss) at h in
          let (x, m, o, s) = found-Owned hash owner ds d later in (x, Memᴰ.tail m, o, s)
    ]
  where
    has_owner :
        (e : Document) → (e.owner_id == owner && e.content_hash == hash) ≡ true → e.owner_id ≡ owner
    has_owner e h = ground arith

    has_hash :
        (e : Document)
        → (e.owner_id == owner && e.content_hash == hash) ≡ true
        → e.content_hash ≡ hash
    has_hash e h = ground arith

pub not_found-Different :
    (hash owner : ℕ) (ds : List Document)
    → find_by_content_hash hash owner ds ≡ none
    → All (λ e. e.owner_id ≡ owner → e.content_hash ≢ hash) ds
unfolding find_by_content_hash find_one
not_found-Different hash owner [] h = tt
not_found-Different hash owner (d ∷ ds) h =
    elim (Bool-cases (d.owner_id == owner && d.content_hash == hash)) [
      | inl hit ↦ let no_hit : some d ≡ none = rw (find_by_content_hash, find_one, hit) at h in cc
      | inr miss ↦
          let later : find_by_content_hash hash owner ds ≡ none =
            rw (find_by_content_hash, find_one, miss) at h in
          (λ o same. apart d miss o same, not_found-Different hash owner ds later)
    ]
  where
    apart :
        (d : Document)
        → (d.owner_id == owner && d.content_hash == hash) ≡ false
        → d.owner_id ≡ owner
        → d.content_hash ≡ hash
        → ⊥
    apart d m o s = ground arith

pub NoTwins-append :
    (owner : ℕ) (ds : List Document) (d : Document)
    → NoTwins owner ds
    → All (λ e. e.owner_id ≡ owner → e.content_hash ≢ d.content_hash) ds
    → NoTwins owner (ds ++ d ∷ [])
NoTwins-append owner [] d h new = (λ o. tt, tt)
NoTwins-append owner (e ∷ ds) d h new = (
  λ o. All-append (Different owner e) ds (d ∷ []) (h.0 o) (λ o' same. new.0 o same, tt),
  NoTwins-append owner ds d h.1 new.1,
)

pub Owned-append :
    (owner hash : ℕ) (ds more : List Document) → Owned owner hash ds → Owned owner hash (ds ++ more)
Owned-append owner hash ds more (d, m, o, s) = (d, append-mem ds more d m, o, s)

pub Owned-new :
    (owner : ℕ) (ds : List Document) (d : Document)
    → d.owner_id ≡ owner
    → Owned owner d.content_hash (ds ++ d ∷ [])
Owned-new owner ds d h = (d, append-mem_last ds d, h, refl)
