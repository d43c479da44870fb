-- ===== src/Analytics/Statuses.antt =====
-- The documents of an owner by their status, and the groups that the query returns.
use secondbrain_ai.Prelude.{
  ℕ, suc, ◌+◌, ◌≡◌, refl, sym, ap, ◌∙◌, inl, inr, Bool, true, false, ◌&&◌, List, [], ◌∷◌, arith,
  All, Bool-cases, ◌==◌, ==_iff, if◌then◌else◌,
}
use secondbrain_ai.Documents.{Document, DocumentStatus}
use secondbrain_ai.Analytics.{
  StatusCount, status_eq, count_of, sum_counts, is_in_flight, sum_in_flight,
}

-- How many documents of the owner's pass a test on their status.
unfoldable pub number : ℕ → (DocumentStatus → Bool) → List Document → ℕ
number owner p [] = 0
number owner p (d ∷ ds) =
    let rest = number owner p ds in if d.owner_id == owner && p d.status then suc rest else rest

-- How many of the groups that pass a test are of the status.
unfoldable pub occurs : (DocumentStatus → Bool) → DocumentStatus → List StatusCount → ℕ
occurs p s [] = 0
occurs p s (g ∷ gs) =
    let rest = occurs p s gs in if p g.status && status_eq g.status s then suc rest else rest

abbrev pub any_status : DocumentStatus → Bool
any_status s = true

-- What `SELECT status, count(*) … WHERE owner_id = … GROUP BY status` returns, in any order: each group has
-- the number of documents of its status, and each document's status has one group.
pub record Grouped (owner : ℕ) (ds : List Document) (groups : List StatusCount) : Type 0 where
  pub counted : All (λ g. g.count ≡ number owner (status_eq g.status) ds) groups
  pub grouped : All (λ d. d.owner_id ≡ owner → occurs any_status d.status groups ≡ 1) ds

status_eq_≡ : (a b : DocumentStatus) → status_eq a b ≡ true → a ≡ b
unfolding status_eq
status_eq_≡ DocumentStatus.pending DocumentStatus.pending h = refl
status_eq_≡ DocumentStatus.parsing DocumentStatus.parsing h = refl
status_eq_≡ DocumentStatus.parsed DocumentStatus.parsed h = refl
status_eq_≡ DocumentStatus.chunking DocumentStatus.chunking h = refl
status_eq_≡ DocumentStatus.embedding DocumentStatus.embedding h = refl
status_eq_≡ DocumentStatus.indexed DocumentStatus.indexed h = refl
status_eq_≡ DocumentStatus.failed DocumentStatus.failed h = refl
status_eq_≡ a b h = cc

status_eq_refl : (a : DocumentStatus) → status_eq a a ≡ true
unfolding status_eq
status_eq_refl DocumentStatus.pending = refl
status_eq_refl DocumentStatus.parsing = refl
status_eq_refl DocumentStatus.parsed = refl
status_eq_refl DocumentStatus.chunking = refl
status_eq_refl DocumentStatus.embedding = refl
status_eq_refl DocumentStatus.indexed = refl
status_eq_refl DocumentStatus.failed = refl

-- The counts of the groups that pass a test, added.
unfoldable pub sum_if : (DocumentStatus → Bool) → List StatusCount → ℕ
sum_if p [] = 0
sum_if p (g ∷ gs) = let rest = sum_if p gs in if p g.status then g.count + rest else rest

pub sum_counts_any : (gs : List StatusCount) → sum_counts gs ≡ sum_if any_status gs
unfolding sum_counts sum_if
sum_counts_any [] = refl
sum_counts_any (g ∷ gs) = ap (λ n. g.count + n) (sum_counts_any gs)

pub sum_in_flight_if : (gs : List StatusCount) → sum_in_flight gs ≡ sum_if is_in_flight gs
unfolding sum_in_flight sum_if
sum_in_flight_if [] = refl
sum_in_flight_if (g ∷ gs) = rw (sum_in_flight_if gs) refl

-- The groups' numbers, added, when one more document is counted in its group.
module _ (owner : ℕ) (p : DocumentStatus → Bool) where
  unfoldable pub numbers : List Document → List StatusCount → ℕ
  unfolding number
  numbers ds [] = 0
  numbers ds (g ∷ gs) =
      let rest = numbers ds gs in
      if p g.status then number owner (status_eq g.status) ds + rest else rest

  numbers_none : (gs : List StatusCount) → numbers [] gs ≡ 0
  unfolding numbers number
  numbers_none [] = refl
  numbers_none (g ∷ gs) = ground (arith, numbers_none gs)

  numbers_other :
      (d : Document) (ds : List Document) (gs : List StatusCount)
      → (d.owner_id == owner) ≡ false
      → numbers (d ∷ ds) gs ≡ numbers ds gs
  unfolding numbers number
  numbers_other d ds [] h = refl
  numbers_other d ds (g ∷ gs) h = rw (numbers_other d ds gs h, h) refl

  numbers_own :
      (d : Document) (ds : List Document) (gs : List StatusCount)
      → (d.owner_id == owner) ≡ true
      → numbers (d ∷ ds) gs ≡ occurs p d.status gs + numbers ds gs
  unfolding numbers number occurs
  numbers_own d ds [] h = refl
  numbers_own d ds (g ∷ gs) h =
      let rest = numbers_own d ds gs h in
      elim (Bool-cases (p g.status)) [
        | inl e ↦ elim (Bool-cases (status_eq g.status d.status)) [
          | inl f ↦ rw (e, f, h) (omega arith)
          | inr f ↦ rw (e, f, h) (omega arith)
        ]
        | inr e ↦ rw e rest
      ]

  pub sum_if-numbers :
      (ds : List Document) (gs : List StatusCount)
      → All (λ g. g.count ≡ number owner (status_eq g.status) ds) gs
      → sum_if p gs ≡ numbers ds gs
  unfolding sum_if numbers
  sum_if-numbers ds [] h = refl
  sum_if-numbers ds (g ∷ gs) (here, there) = rw (sum_if-numbers ds gs there, here) refl

-- A group of a status that passes the test is counted, any other is not.
occurs_passing :
    (p : DocumentStatus → Bool) (s : DocumentStatus) (gs : List StatusCount)
    → p s ≡ true
    → occurs p s gs ≡ occurs any_status s gs
unfolding occurs
occurs_passing p s [] h = refl
occurs_passing p s (g ∷ gs) h = elim (Bool-cases (status_eq g.status s)) [
  | inl e ↦ rw (e, status_eq_≡ g.status s e, h, occurs_passing p s gs h) refl
  | inr e ↦ ground (arith, e, occurs_passing p s gs h)
]

occurs_barred :
    (p : DocumentStatus → Bool) (s : DocumentStatus) (gs : List StatusCount)
    → p s ≡ false
    → occurs p s gs ≡ 0
unfolding occurs
occurs_barred p s [] h = refl
occurs_barred p s (g ∷ gs) h = elim (Bool-cases (status_eq g.status s)) [
  | inl e ↦ rw (status_eq_≡ g.status s e, h) (occurs_barred p s gs h)
  | inr e ↦ ground (arith, e, occurs_barred p s gs h)
]

pub numbers-number :
    (owner : ℕ) (p : DocumentStatus → Bool) (groups : List StatusCount) (ds : List Document)
    → All (λ d. d.owner_id ≡ owner → occurs any_status d.status groups ≡ 1) ds
    → numbers owner p ds groups ≡ number owner p ds
unfolding number
numbers-number owner p groups [] h = numbers_none owner p groups
numbers-number owner p groups (d ∷ ds) (here, there) =
    let rest = numbers-number owner p groups ds there in
    elim (Bool-cases (d.owner_id == owner)) [
      | inl e ↦ elim (Bool-cases (p d.status)) [
        | inl f ↦
            rw
              (
                numbers_own owner p d ds groups e,
                occurs_passing p d.status groups f,
                here ((==_iff d.owner_id owner).0 e),
                rest,
                e,
                f,
              )
              (omega arith)
        | inr f ↦
            rw (numbers_own owner p d ds groups e, occurs_barred p d.status groups f, rest, e, f)
              (omega arith)
      ]
      | inr e ↦ rw (numbers_other owner p d ds groups e, e) rest
    ]

-- A group that the query returned has the number of the documents of its status.
pub count_of-number :
    (owner : ℕ) (s : DocumentStatus) (ds : List Document) (gs : List StatusCount)
    → All (λ g. g.count ≡ number owner (status_eq g.status) ds) gs
    → (occurs any_status s gs ≡ 0 → number owner (status_eq s) ds ≡ 0)
    → count_of s gs ≡ number owner (status_eq s) ds
unfolding count_of occurs
count_of-number owner s ds [] h none_of = sym (none_of refl)
count_of-number owner s ds (g ∷ gs) (here, there) none_of =
    elim (Bool-cases (status_eq g.status s)) [
      | inl e ↦ rw e (here ∙ ap (λ x. number owner (status_eq x) ds) (status_eq_≡ g.status s e))
      | inr e ↦ rw e (count_of-number owner s ds gs there (λ q. none_of (rw e q)))
    ]

pub number_unlisted :
    (owner : ℕ) (s : DocumentStatus) (groups : List StatusCount) (ds : List Document)
    → All (λ d. d.owner_id ≡ owner → occurs any_status d.status groups ≡ 1) ds
    → occurs any_status s groups ≡ 0
    → number owner (status_eq s) ds ≡ 0
unfolding number
number_unlisted owner s groups [] h z = refl
number_unlisted owner s groups (d ∷ ds) (here, there) z =
    let rest = number_unlisted owner s groups ds there z in
    elim (Bool-cases (d.owner_id == owner)) [
      | inl e ↦ elim (Bool-cases (status_eq s d.status)) [
        | inl f ↦
            let one = here ((==_iff d.owner_id owner).0 e) in
            let same = ap (λ x. occurs any_status x groups) (status_eq_≡ s d.status f) in
            absurd (omega (arith, one, same, z))
        | inr f ↦ rw (e, f) rest
      ]
      | inr e ↦ rw e rest
    ]
