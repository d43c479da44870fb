-- ===== src/Uploads/Guard/Accepts.antt =====
-- Which streams `_guarded` of backend/app/services/uploads/service.py lets through.
use secondbrain_ai.Prelude.{
  ℕ, ◌≤◌, ◌≡◌, refl, sym, ap, subst, ◌∙◌, inl, inr, true, false, Option, none, some, List, [], ◌++◌,
  flatten, append_assoc, append-nil, arith, length, length-append, take, Bool-cases,
}
use secondbrain_ai.Prelude.Outcome.{Outcome, ok, raised}
use secondbrain_ai.FileTypes.{FileType, signature_matches, probe_bytes}
use secondbrain_ai.Uploads.Guard.{
  UploadError, Stream, ended, broken, next, Guard, Yielded, yield_first, guard_step, forward,
  guard_from, guarded,
}
use secondbrain_ai.Uploads.Guard.Steps.{Tracks, RuledOut, Stepped, guard_step-Stepped}

abbrev prefixed : List ℕ → Option (List ℕ) → Option (List ℕ)
prefixed chunk none = none
prefixed chunk (some bytes) = some (chunk ++ bytes)

-- All bytes of a stream that ends.
unfoldable pub bytes_of : Stream → Option (List ℕ)
bytes_of ended = some []
bytes_of broken = none
bytes_of (next chunk rest) = prefixed chunk (bytes_of rest)

-- A stream of these bytes is let through: with what went before, they keep to the limit and begin with a
-- signature of the type.
abbrev pub Fine : ℕ → FileType → List ℕ → Type 0
Fine limit t bytes = (length bytes ≤ limit) × (signature_matches t (take probe_bytes bytes) ≡ true)

-- What the generator yields in the end.
unfoldable pub Judged : ℕ → FileType → List ℕ → Option (List ℕ) → Yielded → Type 0
Judged limit t before bytes (chunks, none) =
    (bytes ≡ some (flatten chunks)) × Fine limit t (before ++ flatten chunks)
Judged limit t before none (chunks, some e) = length (before ++ flatten chunks) ≤ limit
Judged limit t before (some bs) (chunks, some e) =
    (length (before ++ flatten chunks) ≤ limit) × ¬ Fine limit t (before ++ bs)

ended_Judged :
    (limit : ℕ) (t : FileType) (g : Guard) (before : List ℕ)
    → length before ≤ limit
    → Tracks t before g
    → Judged limit t before (some []) (guard_from limit t g ended)
unfolding Judged guard_from Tracks flatten
ended_Judged limit t g before h (total, inl (checked, matches, enough)) =
    rw (guard_from, checked) (refl, subst (Fine limit t) (sym (append-nil before)) (h, matches))
ended_Judged limit t g before h (total, inr (unchecked, head)) =
    elim (Bool-cases (signature_matches t g.head)) [
      | inl matches ↦
          let fine : Fine limit t before = (h, ap (signature_matches t) (sym head) ∙ matches) in
          rw (guard_from, unchecked, matches)
            (refl, subst (Fine limit t) (sym (append-nil before)) fine)
      | inr differs ↦
          let other : signature_matches t (take probe_bytes before) ≡ false =
            ap (signature_matches t) (sym head) ∙ differs in
          rw (guard_from, unchecked, differs)
            (
              omega (arith, h, length-append before []),
              λ fine. let (short, matches) = subst (Fine limit t) (append-nil before) fine in cc,
            )
    ]

RuledOut-Fine :
    (limit : ℕ) (t : FileType) (before bs : List ℕ)
    → RuledOut limit t before
    → ¬ Fine limit t (before ++ bs)
unfolding RuledOut
RuledOut-Fine limit t before bs (inl over) (short, matches) =
    absurd (omega (arith, over, short, length-append before bs))
RuledOut-Fine limit t before bs (inr differs) (short, matches) = let d = differs bs in cc

yield_first-Judged :
    (limit : ℕ) (t : FileType) (before chunk : List ℕ) (bytes : Option (List ℕ)) (y : Yielded)
    → Judged limit t (before ++ chunk) bytes y
    → Judged limit t before (prefixed chunk bytes) (yield_first chunk y)
unfolding Judged flatten
yield_first-Judged limit t before chunk bytes (chunks, none) (e, fine) =
    (ap (prefixed chunk) e, subst (Fine limit t) (append_assoc before chunk (flatten chunks)) fine)
yield_first-Judged limit t before chunk none (chunks, some e) h =
    subst (λ x. length x ≤ limit) (append_assoc before chunk (flatten chunks)) h
yield_first-Judged limit t before chunk (some bs) (chunks, some e) (h, n) = (
  subst (λ x. length x ≤ limit) (append_assoc before chunk (flatten chunks)) h,
  λ fine. n (subst (Fine limit t) (sym (append_assoc before chunk bs)) fine),
)

forward-Judged :
    (limit : ℕ) (t : FileType) (before chunk : List ℕ) (bytes : Option (List ℕ))
    (o : Outcome UploadError Guard) (more : Guard → Yielded)
    → length before ≤ limit
    → Stepped limit t (before ++ chunk) o
    → ((h : Guard)
        → Tracks t (before ++ chunk) h
        → length (before ++ chunk) ≤ limit
        → Judged limit t (before ++ chunk) bytes (more h))
    → Judged limit t before (prefixed chunk bytes) (forward chunk o more)
unfolding forward Stepped Judged flatten
forward-Judged limit t before chunk none (raised e) more short out k =
    omega (arith, short, length-append before [])
forward-Judged limit t before chunk (some bs) (raised e) more short out k = (
  omega (arith, short, length-append before []),
  λ fine.
      RuledOut-Fine limit t (before ++ chunk) bs out
        (subst (Fine limit t) (sym (append_assoc before chunk bs)) fine),
)
forward-Judged limit t before chunk bytes (ok h) more short (tracks, within) k =
    yield_first-Judged limit t before chunk bytes (more h) (k h tracks within)

guard_from-Judged :
    (limit : ℕ) (t : FileType) (g : Guard) (before : List ℕ) (stream : Stream)
    → length before ≤ limit
    → Tracks t before g
    → Judged limit t before (bytes_of stream) (guard_from limit t g stream)
unfolding bytes_of guard_from flatten
guard_from-Judged limit t g before ended h tracks = ended_Judged limit t g before h tracks
guard_from-Judged limit t g before broken h tracks =
    unfold Judged flatten in omega (arith, h, length-append before [])
guard_from-Judged limit t g before (next chunk rest) h tracks =
    forward-Judged limit t before chunk (bytes_of rest) (guard_step limit t g chunk)
      (λ x. guard_from limit t x rest) h (guard_step-Stepped limit t g before chunk tracks)
      (λ x tracked within. guard_from-Judged limit t x (before ++ chunk) rest within tracked)

-- The guard yields at most `limit` bytes. It ends without an exception exactly for a stream that ends, keeps
-- to the limit and begins with a signature of the type, however it is cut into chunks; and then it has
-- yielded all of its bytes.
pub guarded-Judged :
    (limit : ℕ) (t : FileType) (stream : Stream)
    → Judged limit t [] (bytes_of stream) (guarded limit t stream)
unfolding guarded Tracks
guarded-Judged limit t stream =
    guard_from-Judged limit t (record { total = 0; head = []; checked = false }) [] stream
      (omega arith) (refl, inr (refl, refl))
