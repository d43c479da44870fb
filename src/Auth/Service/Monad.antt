-- ===== src/Auth/Service/Monad.antt =====
-- A method of the service: it works in a session's transaction and may raise. What it has written
-- stays in the session beside the exception.
use secondbrain_ai.Prelude.{Bool, List, if◌then◌else◌}
use secondbrain_ai.Prelude.Outcome.{Outcome, ok, raised}
use secondbrain_ai.Auth.Records.{User, RefreshToken, Session, AuthError}

abbrev pub Action : Type 0 → Type 0
Action A = Session → Outcome AuthError A × Session

module _ {A : Type 0} where
  abbrev pub pure : A → Action A
  pure a s = (ok a, s)

  abbrev pub raise : AuthError → Action A
  raise e s = (raised e, s)

  abbrev pub lift : Outcome AuthError A → Action A
  lift r s = (r, s)

  -- A query of a table, as the transaction sees it.
  abbrev pub tokens_now : (List RefreshToken → A) → Action A
  tokens_now f s = (ok (f s.working.tokens), s)

  abbrev pub users_now : (List User → A) → Action A
  users_now f s = (ok (f s.working.users), s)

infixl 5 ◌>>=◌ ◌>>◌
abbrev pub ◌>>=◌ : {A B : Type 0} → Action A → (A → Action B) → Action B
◌>>=◌ m f s = let (r, s') = m s in elim r [ ok a ↦ f a s' | raised e ↦ (raised e, s') ]

abbrev pub ◌>>◌ : {A B : Type 0} → Action A → Action B → Action B
m >> k = m >>= λ _. k

abbrev pub raise_if : Bool → AuthError → Action (Unit {0})
raise_if test e s = (if test then raised e else ok tt, s)

abbrev pub set_tokens : (List RefreshToken → List RefreshToken) → Action (Unit {0})
set_tokens f s = (ok tt, record s { working = record s.working { tokens = f s.working.tokens } })

abbrev pub set_users : (List User → List User) → Action (Unit {0})
set_users f s = (ok tt, record s { working = record s.working { users = f s.working.users } })

-- `session.commit()`
abbrev pub commit : Action (Unit {0})
commit s = (ok tt, record s { durable = s.working })
