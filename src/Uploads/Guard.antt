-- ===== src/Uploads/Guard.antt =====
-- `_guarded` of backend/app/services/uploads/service.py: the limit and the signature, checked mid-stream.
pub mod Steps
pub mod Accepts
use secondbrain_ai.Prelude.{
  ℕ, ◌+◌, ◌-◌, Bool, true, false, not, ◌&&◌, ◌||◌, Option, none, some, List, [], ◌∷◌, ◌++◌, length,
  take, ltb, leb, if◌then◌else◌,
}
use secondbrain_ai.Prelude.Outcome.{Outcome, ok, raised}
use secondbrain_ai.FileTypes.{FileType, signature_matches, probe_bytes}

-- The exceptions of an upload.
pub data UploadError : Type 0 where
  unsupported_media_type payload_too_large not_found add_failed disconnected : UploadError

-- The chunks that a client sends, to the end or until it disconnects.
pub data Stream : Type 0 where
  ended : Stream
  broken : Stream
  next : List ℕ → Stream → Stream

-- The variables of `_guarded`.
pub record Guard : Type 0 where
  pub total : ℕ
  pub head : List ℕ
  pub checked : Bool

-- What the generator yields, and the exception that ends it.
abbrev pub Yielded : Type 0
Yielded = List (List ℕ) × Option UploadError

abbrev pub yield_first : List ℕ → Yielded → Yielded
yield_first chunk (chunks, e) = (chunk ∷ chunks, e)

abbrev pub no_signatures : FileType → Bool
no_signatures t = elim t.signatures [ [] ↦ true | s ∷ ss ↦ false ]

abbrev pub halt : UploadError → Yielded
halt e = ([], some e)

-- The body of the loop up to the `yield`: the variables then, or the exception.
unfoldable pub guard_step : ℕ → FileType → Guard → List ℕ → Outcome UploadError Guard
unfolding signature_matches
guard_step limit t g chunk =
    let total = g.total + length chunk in
    let head = g.head ++ take (probe_bytes - length g.head) chunk in
    if ltb limit total
    then raised payload_too_large
    else if g.checked
    then ok (record { total = total; head = g.head; checked = true })
    else if leb probe_bytes (length head) || no_signatures t
    then (if signature_matches t head
        then ok (record { total = total; head = head; checked = true })
        else raised unsupported_media_type)
    else ok (record { total = total; head = head; checked = false })

unfoldable pub forward : List ℕ → Outcome UploadError Guard → (Guard → Yielded) → Yielded
forward chunk (raised e) more = halt e
forward chunk (ok g) more = yield_first chunk (more g)

-- The loop of `_guarded`, and the check that follows it.
unfoldable pub guard_from : ℕ → FileType → Guard → Stream → Yielded
unfolding signature_matches forward guard_step
guard_from limit t g ended =
    if not g.checked && not (signature_matches t g.head)
    then halt unsupported_media_type
    else ([], none)
guard_from limit t g broken = halt disconnected
guard_from limit t g (next chunk rest) =
    forward chunk (guard_step limit t g chunk) (λ h. guard_from limit t h rest)

-- `_guarded`
unfoldable pub guarded : ℕ → FileType → Stream → Yielded
unfolding guard_from
guarded limit t stream =
    guard_from limit t (record { total = 0; head = []; checked = false }) stream
