-- ===== src/VectorStore/Tests.antt =====
-- A retrying loop and a client that fails at first, and instances of the theorems at them.
use secondbrain_ai.Prelude.{
  ℕ, zero, suc, ltb, ◌≡◌, refl, sym, subst, ap, ◌⊎◌, inl, inr, true, false, none, List, [], ◌∷◌,
  arith, Bool-cases, ◌==◌, if◌then◌else◌, ==_iff,
}
use mathlib.Core.List.{Memᴰ}
use secondbrain_ai.Prelude.Outcome.{Outcome, ok, raised}
use secondbrain_ai.Indexing.Vectors.{VectorRecord}
use secondbrain_ai.Retry.{
  Raised, connection_error, retry_error, Call, RetryPolicy, Decision, try_again, gives_up, Tenacity,
  with_retry, is_transient,
}
use secondbrain_ai.Retry.Attempts.{EndsBy, with_retry-EndsBy}
use secondbrain_ai.VectorStore.{
  PointIndex, put_point, overlay, Where, document_is, unless_meets, OneOf, QdrantClient, Write,
  upsert_of, delete_of, perform_all,
}
use secondbrain_ai.VectorStore.Replayed.{replay_all, perform_all-replay}

-- The decisions that the documentation states.
abbrev decision : RetryPolicy → ℕ → Raised → Decision
decision p number e =
    if p.exceptions e
    then (if ltb number p.attempts
        then try_again
        else gives_up (if p.reraise then e else retry_error))
    else gives_up e

abbrev tenacity : Tenacity
tenacity = record {
  decide = decision;
  unretried = λ p number e h. rw h refl;
  retried = λ p number e h more.
      let below : ltb number p.attempts ≡ true = ground arith in rw (h, below) refl;
  stopped = λ p number e h last.
      let over : ltb number p.attempts ≡ false = ground arith in rw (h, over) refl;
}

-- A call that fails as often as its state says.
abbrev flaky : Call ℕ ℕ
flaky zero = (zero, ok 42)
flaky (suc k) = (k, raised connection_error)

flaky_test : with_retry tenacity 3 is_transient flaky 2 ≡ (0, ok 42)
unfolding with_retry is_transient
flaky_test = refl

with_retry-EndsBy_example :
    EndsBy is_transient 2 flaky 5 (with_retry tenacity 3 is_transient flaky 5)
with_retry-EndsBy_example = with_retry-EndsBy tenacity 2 is_transient flaky 5

-- A store that writes only the first point of a call that fails.
abbrev Flaky : Type 0
Flaky = PointIndex × ℕ

abbrev first_point : List VectorRecord → PointIndex → PointIndex
first_point [] m = m
first_point (p ∷ ps) m = put_point p m

abbrev write_flaky : List VectorRecord → Call Flaky (Unit {0})
write_flaky points (m, zero) = ((overlay points m, zero), ok tt)
write_flaky points (m, suc k) = ((first_point points m, k), raised connection_error)

abbrev delete_flaky : Where → Call Flaky (Unit {0})
delete_flaky c (m, k) = ((λ i. unless_meets c (m i), k), ok tt)

abbrev point_of : Flaky → PointIndex
point_of (m, k) = m

write_flaky-written :
    (points : List VectorRecord) (s s' : Flaky)
    → write_flaky points s ≡ (s', ok tt)
    → point_of s' ≡ overlay points (point_of s)
write_flaky-written points (m, zero) s' h =
    ap (λ (r : Flaky × Outcome Raised (Unit {0})). point_of r.0) (sym h)
write_flaky-written points (m, suc k) s' h =
    let both : raised connection_error ≡ ok tt =
      ap (λ (r : Flaky × Outcome Raised (Unit {0})). r.1) h in
    cc

first_point-Partly :
    (points : List VectorRecord) (m : PointIndex) (i : ℕ)
    → (first_point points m i ≡ m i) ⊎ OneOf points i (first_point points m i)
first_point-Partly [] m i = inl refl
first_point-Partly (p ∷ ps) m i = elim (Bool-cases (p.id == i)) [
  | inl hit ↦ inr (p, Memᴰ.head refl, (==_iff p.id i).0 hit, rw hit refl)
  | inr miss ↦ inl (rw miss refl)
]

write_flaky-partly :
    (points : List VectorRecord) (s s' : Flaky) (e : Raised)
    → write_flaky points s ≡ (s', raised e)
    → (i : ℕ) → (point_of s' i ≡ point_of s i) ⊎ OneOf points i (point_of s' i)
write_flaky-partly points (m, zero) s' e h i =
    let both : ok tt ≡ raised e = ap (λ (r : Flaky × Outcome Raised (Unit {0})). r.1) h in cc
write_flaky-partly points (m, suc k) s' e h i =
    subst (λ (n : PointIndex). (n i ≡ m i) ⊎ OneOf points i (n i))
      (ap (λ (r : Flaky × Outcome Raised (Unit {0})). point_of r.0) h)
      (first_point-Partly points m i)

delete_flaky-removed :
    (c : Where) (s s' : Flaky)
    → delete_flaky c s ≡ (s', ok tt)
    → point_of s' ≡ (λ i. unless_meets c (point_of s i))
delete_flaky-removed c (m, k) s' h =
    ap (λ (r : Flaky × Outcome Raised (Unit {0})). point_of r.0) (sym h)

abbrev client : QdrantClient
client = record {
  State = Flaky;
  write_points = write_flaky;
  delete_points = delete_flaky;
  point_at = point_of;
  written = write_flaky-written;
  partly_written = write_flaky-partly;
  removed = delete_flaky-removed;
}

abbrev point : ℕ → ℕ → VectorRecord
point id document = record {
  id = id;
  vector = 1 ∷ [];
  owner_id = 7;
  document_id = document;
  text = [];
}

abbrev points : List VectorRecord
points = point 1 5 ∷ point 2 5 ∷ point 3 6 ∷ []

-- Nothing is stored, and the first two calls fail.
abbrev before : Flaky
before = (λ i. none, 2)

abbrev writes : List Write
writes = upsert_of points ∷ delete_of (document_is 5) ∷ []

abbrev after : Flaky
after = (perform_all tenacity client 2 writes before).0

performed : perform_all tenacity client 2 writes before ≡ (after, ok tt)
unfolding perform_all
performed = refl

perform_all-replay_example : point_of after ≡ replay_all writes (point_of before)
perform_all-replay_example =
    perform_all-replay tenacity client 2 (omega arith) writes before after performed
