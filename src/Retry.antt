-- ===== src/Retry.antt =====
-- backend/app/core/retry.py: calls that are made again after a failure that may pass.
pub mod Attempts
use secondbrain_ai.Prelude.{
  ℕ, zero, suc, ◌+◌, ◌≤◌, ◌<◌, if◌then◌else◌, ◌≡◌, refl, sym, subst, ap, ◌∙◌, ◌⊎◌, inl, inr, Bool,
  true, false, Option, none, some, List, [], ◌∷◌, arith, Bool-cases,
}
use secondbrain_ai.Prelude.Outcome.{Outcome, ok, raised}

-- What a call raises, by the classes that `TRANSIENT_EXCEPTIONS` and `retry_if_exception_type` tell
-- apart; tenacity's `RetryError`; and the `AssertionError` behind the loop of `with_retry`.
pub data Raised : Type 0 where
  connection_error timeout_error os_error other_error retry_error assertion_error : Raised

-- `TRANSIENT_EXCEPTIONS`
unfoldable pub is_transient : Raised → Bool
is_transient connection_error = true
is_transient timeout_error = true
is_transient os_error = true
is_transient other_error = false
is_transient retry_error = false
is_transient assertion_error = false

-- `(Exception,)`
abbrev pub is_exception : Raised → Bool
is_exception e = true

-- A call that changes a state, and returns or raises.
abbrev pub Call : Type 0 → Type 0 → Type 0
Call S A = S → S × Outcome Raised A

-- The arguments of `AsyncRetrying` that decide: `stop_after_attempt`, `retry_if_exception_type` and
-- `reraise`.
pub record RetryPolicy : Type 0 where
  pub attempts : ℕ
  pub exceptions : Raised → Bool
  pub reraise : Bool

-- `retry_policy`, without the waits and their log.
unfoldable pub retry_policy : ℕ → (Raised → Bool) → RetryPolicy
retry_policy attempts exceptions = record {
  attempts = attempts;
  exceptions = exceptions;
  reraise = true;
}

-- What `AsyncRetrying` does when an attempt has raised: it yields another, or raises.
pub data Decision : Type 0 where
  try_again : Decision
  gives_up : Raised → Decision

-- `AsyncRetrying` of tenacity, with what its documentation says of an attempt that raised, by its number
-- from 1: an exception of no class to retry is raised; otherwise another attempt follows while the number is
-- below the attempts to stop after; and then the exception is raised again under `reraise`, and
-- `RetryError` is without it.
pub record Tenacity : Type 0 where
  pub decide : RetryPolicy → ℕ → Raised → Decision
  pub unretried :
      (p : RetryPolicy) (number : ℕ) (e : Raised)
      → p.exceptions e ≡ false
      → decide p number e ≡ gives_up e
  pub retried :
      (p : RetryPolicy) (number : ℕ) (e : Raised)
      → p.exceptions e ≡ true
      → number < p.attempts
      → decide p number e ≡ try_again
  pub stopped :
      (p : RetryPolicy) (number : ℕ) (e : Raised)
      → p.exceptions e ≡ true
      → p.attempts ≤ number
      → decide p number e ≡ gives_up (if p.reraise then e else retry_error)

abbrev pub settled :
    {S A : Type 0} → Decision → S → (S → S × Outcome Raised A) → S × Outcome Raised A
settled try_again s next = next s
settled (gives_up e) s next = (s, raised e)

-- `return await fn()` under `with attempt`, which hands an exception to the loop.
abbrev pub attempted :
    {S A : Type 0}
    → (Raised → Decision)
    → S × Outcome Raised A
    → (S → S × Outcome Raised A)
    → S × Outcome Raised A
attempted decision (s, ok a) next = (s, ok a)
attempted decision (s, raised e) next = settled (decision e) s next

-- The loop over the attempts, from the one with the number on, on fuel; behind it stands an `AssertionError`.
unfoldable pub attempts_from : {S A : Type 0} → Tenacity → RetryPolicy → ℕ → ℕ → Call S A → Call S A
attempts_from t p zero number f s = (s, raised assertion_error)
attempts_from t p (suc fuel) number f s =
    attempted (t.decide p number) (f s) (λ x. attempts_from t p fuel (suc number) f x)

-- `with_retry`, of as many attempts.
unfoldable pub with_retry : {S A : Type 0} → Tenacity → ℕ → (Raised → Bool) → Call S A → Call S A
unfolding attempts_from retry_policy
with_retry t attempts exceptions f s =
    attempts_from t (retry_policy attempts exceptions) (suc attempts) 1 f s

-- The attempts that `with_retry` makes unless it is told otherwise.
abbrev pub default_attempts : ℕ
default_attempts = 3
