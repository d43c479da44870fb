-- ===== src/Auth/Service/Request.antt =====
-- `get_session`: one transaction for each request, committed on success and rolled back on an error.
use secondbrain_ai.Prelude.Outcome.{Outcome, ok, raised}
use secondbrain_ai.Auth.Records.{Db, Session, AuthError}
use secondbrain_ai.Auth.Service.Monad.{Action}

abbrev pub settle : {A : Type 0} → Outcome AuthError A × Session → Outcome AuthError A × Db
settle (ok a, s) = (ok a, s.working)
settle (raised e, s) = (raised e, s.durable)

-- A request's result and the database after it.
unfoldable pub run : {A : Type 0} → Action A → Db → Outcome AuthError A × Db
run act db = settle (act (record { working = db; durable = db }))
