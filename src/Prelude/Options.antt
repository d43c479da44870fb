-- ===== src/Prelude/Options.antt =====
-- Chains and alternatives of results that may be missing.
use mathlib.Core.Option.{Option, none, some}

abbrev pub chain {ℓ κ} : {A : Type ℓ} {B : Type κ} → Option A → (A → Option B) → Option B
chain none f = none
chain (some a) f = f a

abbrev pub or_else {ℓ} : {A : Type ℓ} → Option A → Option A → Option A
or_else none b = b
or_else (some a) b = some a
