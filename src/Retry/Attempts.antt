-- ===== src/Retry/Attempts.antt =====
-- How often `with_retry` calls, and which call it ends by.
use secondbrain_ai.Prelude.{
  ℕ, zero, suc, ◌+◌, ◌≤◌, ◌<◌, subst, ◌≡◌, refl, sym, ap, ◌∙◌, ◌⊎◌, inl, inr, Bool, true, false,
  arith, Bool-cases,
}
use secondbrain_ai.Prelude.Outcome.{Outcome, ok, raised}
use secondbrain_ai.Retry.{Raised, Call, Tenacity, retry_policy, attempts_from, with_retry}

module _ {S A : Type 0} where
  -- The state after so many calls.
  abbrev pub after_calls : ℕ → Call S A → S → S
  after_calls zero f s = s
  after_calls (suc k) f s = after_calls k f (f s).0

  -- So many calls in a row raise what is retried.
  abbrev pub Failed : (Raised → Bool) → ℕ → Call S A → S → Type 0
  Failed retried zero f s = Unit
  Failed retried (suc k) f s =
      ((e : Raised) × ((f s).1 ≡ raised e) × (retried e ≡ true)) × Failed retried k f (f s).0

  -- A call that returns, or raises what is not retried.
  abbrev pub Conclusive : (Raised → Bool) → S × Outcome Raised A → Type 0
  Conclusive retried r =
      ((a : A) × (r.1 ≡ ok a)) ⊎ ((e : Raised) × (r.1 ≡ raised e) × (retried e ≡ false))

  -- The result is that of one of the calls that are allowed: those before it raised what is
  -- retried, and it is conclusive unless no more are allowed.
  abbrev pub EndsBy : (Raised → Bool) → ℕ → Call S A → S → S × Outcome Raised A → Type 0
  EndsBy retried n f s r =
      (k : ℕ) × (k ≤ n)
      × Failed retried k f s
      × (r ≡ f (after_calls k f s))
      × (Conclusive retried r ⊎ (k ≡ n))

  pub Call-cases :
      (r : S × Outcome Raised A)
      → ((s : S) × (a : A) × (r ≡ (s, ok a))) ⊎ ((s : S) × (e : Raised) × (r ≡ (s, raised e)))
  Call-cases (s, ok a) = inl (s, a, refl)
  Call-cases (s, raised e) = inr (s, e, refl)

  -- The loop from an attempt on that may be followed by so many more.
  module _ (t : Tenacity) (m : ℕ) (retried : Raised → Bool) (f : Call S A) where
    abbrev attempts_at : ℕ → ℕ → S → S × Outcome Raised A
    unfolding attempts_from
    attempts_at fuel number s = attempts_from t (retry_policy m retried) fuel number f s

    returned :
        (fuel number d : ℕ) (s s' : S) (a : A)
        → f s ≡ (s', ok a)
        → EndsBy retried d f s (attempts_at (suc fuel) number s)
    unfolding attempts_from attempts_at
    returned fuel number d s s' a e =
        let made : attempts_at (suc fuel) number s ≡ (s', ok a) = rw e refl in
        (0, omega arith, tt, made ∙ sym e, inl (inl (a, ap (λ r. r.1) made)))

    refused :
        (fuel number d : ℕ) (s s' : S) (x : Raised)
        → f s ≡ (s', raised x)
        → retried x ≡ false
        → EndsBy retried d f s (attempts_at (suc fuel) number s)
    unfolding attempts_from attempts_at retry_policy
    refused fuel number d s s' x e final =
        let decided = t.unretried (retry_policy m retried) number x final in
        let made : attempts_at (suc fuel) number s ≡ (s', raised x) = rw (e, decided) refl in
        (0, omega arith, tt, made ∙ sym e, inl (inr (x, ap (λ r. r.1) made, final)))

    exhausted :
        (fuel number : ℕ) (s s' : S) (x : Raised)
        → f s ≡ (s', raised x)
        → retried x ≡ true
        → m ≤ number
        → EndsBy retried 0 f s (attempts_at (suc fuel) number s)
    unfolding attempts_from attempts_at retry_policy
    exhausted fuel number s s' x e passing last =
        let decided = t.stopped (retry_policy m retried) number x passing last in
        let made : attempts_at (suc fuel) number s ≡ (s', raised x) = rw (e, decided) refl in
        (0, omega arith, tt, made ∙ sym e, inr refl)

    called_again :
        (fuel number d : ℕ) (s s' : S) (x : Raised)
        → f s ≡ (s', raised x)
        → retried x ≡ true
        → number < m
        → EndsBy retried d f s' (attempts_at fuel (suc number) s')
        → EndsBy retried (suc d) f s (attempts_at (suc fuel) number s)
    unfolding attempts_from attempts_at retry_policy
    called_again fuel number d s s' x e passing more (k, few, failed, result, over) =
        let decided = t.retried (retry_policy m retried) number x passing more in
        let made : attempts_at (suc fuel) number s ≡ attempts_at fuel (suc number) s' =
          rw (e, decided) refl in
        let there : s' ≡ (f s).0 = ap (λ (r : S × Outcome Raised A). r.0) (sym e) in
        let conclusion : Conclusive retried (attempts_at (suc fuel) number s) ⊎ (suc k ≡ suc d) =
          elim over [
            | inl c ↦ inl (subst (Conclusive retried) (sym made) c)
            | inr e ↦ inr (omega arith)
          ] in
        (
          suc k,
          omega arith,
          (
            (x, ap (λ (r : S × Outcome Raised A). r.1) e, passing),
            subst (Failed retried k f) there failed,
          ),
          made ∙ result ∙ ap (λ y. f (after_calls k f y)) there,
          conclusion,
        )

    attempts_from-EndsBy :
        (d fuel number : ℕ) (s : S)
        → number + d ≡ m
        → d < fuel
        → EndsBy retried d f s (attempts_at fuel number s)
    attempts_from-EndsBy d zero number s same enough = absurd (omega arith)
    attempts_from-EndsBy zero (suc fuel) number s same enough = elim (Call-cases (f s)) [
      | inl (s', a, e) ↦ returned fuel number 0 s s' a e
      | inr (s', x, e) ↦ elim (Bool-cases (retried x)) [
        | inr final ↦ refused fuel number 0 s s' x e final
        | inl passing ↦ exhausted fuel number s s' x e passing (omega arith)
      ]
    ]
    attempts_from-EndsBy (suc d) (suc fuel) number s same enough = elim (Call-cases (f s)) [
      | inl (s', a, e) ↦ returned fuel number (suc d) s s' a e
      | inr (s', x, e) ↦ elim (Bool-cases (retried x)) [
        | inr final ↦ refused fuel number (suc d) s s' x e final
        | inl passing ↦
            called_again fuel number d s s' x e passing (omega arith)
              (attempts_from-EndsBy d fuel (suc number) s' (omega arith) (omega arith))
      ]
    ]

  -- With `n + 1` attempts the call is made once, and again after each exception that is retried, at
  -- most `n + 1` times in all: the result is that of the first call that returns or raises anything
  -- else, or that of the last, whose own exception is raised.
  pub with_retry-EndsBy :
      (t : Tenacity) (n : ℕ) (retried : Raised → Bool) (f : Call S A) (s : S)
      → EndsBy retried n f s (with_retry t (suc n) retried f s)
  unfolding with_retry attempts_at
  with_retry-EndsBy t n retried f s =
      attempts_from-EndsBy t (suc n) retried f n (suc (suc n)) 1 s (omega arith) (omega arith)
