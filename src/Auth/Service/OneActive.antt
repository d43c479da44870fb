-- ===== src/Auth/Service/OneActive.antt =====
-- Over any sequence of requests, no family of tokens has more than one that can be used.
use secondbrain_ai.Prelude.{
  ℕ, ◌≤◌, ◌≡◌, refl, inl, inr, subst, sym, true, Option, none, some, List, [], ◌∷◌, arith,
  Bool-cases, leb,
}
use secondbrain_ai.Prelude.Text.{Text}
use secondbrain_ai.Prelude.Outcome.{Outcome, ok, raised}
use secondbrain_ai.Auth.Records.{
  User, RefreshToken, Db, Session, AuthError, refresh, TokenClaims, Externals, Settings,
  ClientContext, Draw,
}
use secondbrain_ai.Auth.Security.{create_token, decode_token}
use secondbrain_ai.Auth.Tokens.{get_by_jti, of_user, revoke_all_for_user, get_user}
use secondbrain_ai.Auth.Tokens.Counting.{
  active_in, active_in-append, active_in-revoke_family-le, active_in-revoke_where,
  active_in_rotation,
}
use secondbrain_ai.Auth.Service.{
  register, authenticate, as_invalid_session, refresh_found, refresh_session, refresh_stored,
  rotate, logout, logout_row, logout_claims, logout_everywhere, issue_token_pair,
  persist_refresh_token, add_token, revoke_family_durably,
}
use secondbrain_ai.Auth.Service.Monad.{Action, lift, tokens_now, ◌>>=◌}
use secondbrain_ai.Auth.Service.Request.{settle, run}
use secondbrain_ai.Auth.Service.Rotation.{next_row, get_by_jti-jti}
use secondbrain_ai.Auth.Service.Leaves.{Grown, Adds}
use secondbrain_ai.Auth.Service.Login.{register-Adds, authenticate-Adds}

-- No family has two active tokens.
abbrev pub AtMostOne : List RefreshToken → Type 0
AtMostOne ts = (family : ℕ) → active_in family ts ≤ 1

Grown-AtMostOne :
    (family : ℕ) (ts us : List RefreshToken)
    → Grown family ts us
    → active_in family ts ≡ 0
    → AtMostOne ts
    → AtMostOne us
Grown-AtMostOne family ts us (inl e) fresh h = rw e h
Grown-AtMostOne family ts us (inr (row, named, e)) fresh h =
    rw e (λ f. ground (arith, h f, fresh, named, active_in-append f ts (row ∷ [])))

settle-AtMostOne :
    {A : Type 0} (r : Outcome AuthError A) (s : Session)
    → AtMostOne s.working.tokens
    → AtMostOne s.durable.tokens
    → AtMostOne (settle (r, s)).1.tokens
settle-AtMostOne (ok a) s w d = w
settle-AtMostOne (raised e) s w d = d

Adds-AtMostOne :
    {A : Type 0} (family : ℕ) (m : Action A) (db : Db)
    → Adds family m
    → active_in family db.tokens ≡ 0
    → AtMostOne db.tokens
    → AtMostOne (run m db).1.tokens
unfolding run
Adds-AtMostOne family m db adds fresh h =
    let s : Session = record { working = db; durable = db } in
    let (grown, kept) = adds.at s in
    settle-AtMostOne (m s).0 (m s).1 (Grown-AtMostOne family db.tokens _ grown fresh h)
      (subst (λ (d : Db). AtMostOne d.tokens) (sym kept) h)

module _ (x : Externals) (settings : Settings) (context : ClientContext) (draw : Draw) where
  issue_rotating-AtMostOne :
      (db : Db) (stored : RefreshToken) (user : User)
      → get_by_jti stored.jti db.tokens ≡ some stored
      → stored.is_active ≡ true
      → AtMostOne db.tokens
      → AtMostOne
          (run
            (issue_token_pair x settings context draw user (some stored.family_id) (some stored))
            db).1.tokens
  unfolding run issue_token_pair persist_refresh_token add_token create_token
  issue_rotating-AtMostOne db stored user found active h f = ground (
    arith,
    h f,
    active_in_rotation draw.refresh_jti draw.now f stored
        (next_row x settings context draw user stored) db.tokens found active refl,
  )

  rotate-AtMostOne :
      (db : Db) (stored : RefreshToken) (found : Option User)
      → get_by_jti stored.jti db.tokens ≡ some stored
      → stored.is_active ≡ true
      → AtMostOne db.tokens
      → AtMostOne (run (rotate x settings context draw stored found) db).1.tokens
  unfolding run rotate revoke_family_durably
  rotate-AtMostOne db stored none found active h f =
      omega (arith, h f, active_in-revoke_family-le draw.now stored.family_id f db.tokens)
  rotate-AtMostOne db stored (some user) found active h f = ground (
    arith,
    h f,
    issue_rotating-AtMostOne db stored user found active h f,
    active_in-revoke_family-le draw.now stored.family_id f db.tokens,
  )

  refresh_stored-AtMostOne :
      (db : Db) (stored : RefreshToken)
      → get_by_jti stored.jti db.tokens ≡ some stored
      → AtMostOne db.tokens
      → AtMostOne (run (refresh_stored x settings context draw stored) db).1.tokens
  unfolding run refresh_stored revoke_family_durably
  refresh_stored-AtMostOne db stored found h f = elim (Bool-cases stored.is_active) [
    | inr spent ↦
        rw spent
          (omega (arith, h f, active_in-revoke_family-le draw.now stored.family_id f db.tokens))
    | inl active ↦ rw active (elim (Bool-cases (leb stored.expires_at draw.now)) [
      | inl over ↦ rw over (h f)
      | inr alive ↦
          rw alive (rotate-AtMostOne db stored (get_user stored.user_id db.users) found active h f)
    ])
  ]

  refresh_found-AtMostOne :
      (db : Db) (jti : ℕ) (found : Option RefreshToken)
      → get_by_jti jti db.tokens ≡ found
      → AtMostOne db.tokens
      → AtMostOne (run (refresh_found x settings context draw found) db).1.tokens
  unfolding run refresh_found
  refresh_found-AtMostOne db jti none e h = h
  refresh_found-AtMostOne db jti (some stored) e h =
      refresh_stored-AtMostOne db stored
        (subst (λ j. get_by_jti j db.tokens ≡ some stored)
          (sym (get_by_jti-jti jti db.tokens stored e)) e)
        h

  refresh_session-AtMostOne :
      (db : Db) (token : Text)
      → AtMostOne db.tokens
      → AtMostOne (run (refresh_session x settings context draw token) db).1.tokens
  unfolding run refresh_session
  refresh_session-AtMostOne db token h = at (
      as_invalid_session x settings context draw
        (decode_token x draw.now token settings.secret_key refresh))
    where
      at :
          (r : Outcome AuthError TokenClaims)
          → AtMostOne
              (run
                (do
                  claims ← lift r
                  stored ← tokens_now (get_by_jti claims.jti)
                  refresh_found x settings context draw stored)
                db).1.tokens
      at (raised e) = h
      at (ok claims) = refresh_found-AtMostOne db claims.jti _ refl h

  logout_row-AtMostOne :
      (db : Db) (row : Option RefreshToken)
      → AtMostOne db.tokens
      → AtMostOne (run (logout_row x settings context draw row) db).1.tokens
  unfolding run logout_row
  logout_row-AtMostOne db none h f = h f
  logout_row-AtMostOne db (some row) h f =
      omega (arith, h f, active_in-revoke_family-le draw.now row.family_id f db.tokens)

  logout_claims-AtMostOne :
      (db : Db) (r : Outcome AuthError TokenClaims)
      → AtMostOne db.tokens
      → AtMostOne (run (logout_claims x settings context draw r) db).1.tokens
  unfolding run logout_claims
  logout_claims-AtMostOne db (raised e) h = h
  logout_claims-AtMostOne db (ok claims) h = logout_row-AtMostOne db _ h

  logout-AtMostOne :
      (db : Db) (token : Option Text)
      → AtMostOne db.tokens
      → AtMostOne (run (logout x settings context draw token) db).1.tokens
  unfolding logout
  logout-AtMostOne db none h = unfold run in h
  logout-AtMostOne db (some []) h = unfold run in h
  logout-AtMostOne db (some (c ∷ t)) h = logout_claims-AtMostOne db _ h

  logout_everywhere-AtMostOne :
      (db : Db) (user : ℕ)
      → AtMostOne db.tokens
      → AtMostOne (run (logout_everywhere x settings context draw user) db).1.tokens
  unfolding run logout_everywhere revoke_all_for_user
  logout_everywhere-AtMostOne db user h f =
      omega (arith, h f, active_in-revoke_where (of_user user) draw.now f db.tokens)

-- The requests that reach the tokens.
pub data Event : Type 0 where
  registers : Text → Text → Text → Event
  logs_in : Text → Text → Event
  refreshes : Text → Event
  logs_out : Option Text → Event
  logs_out_everywhere : ℕ → Event

module _ (x : Externals) (settings : Settings) where
  -- One request, with its context and what it draws.
  unfoldable pub handle : Event → ClientContext → Draw → Db → Db
  handle (registers email password name) c d db =
      (run (register x settings c d email password name) db).1
  handle (logs_in email password) c d db = (run (authenticate x settings c d email password) db).1
  handle (refreshes token) c d db = (run (refresh_session x settings c d token) db).1
  handle (logs_out token) c d db = (run (logout x settings c d token) db).1
  handle (logs_out_everywhere user) c d db = (run (logout_everywhere x settings c d user) db).1

  -- The databases that a sequence of requests leads to, each family id that is drawn being new.
  pub data Reach (start : Db) : Db → Type 0 where
    here : Reach start start
    next :
        {db : Db} (e : Event) (c : ClientContext) (d : Draw)
        → Reach start db
        → active_in d.family_id db.tokens ≡ 0
        → Reach start (handle e c d db)

  handle-AtMostOne :
      (e : Event) (c : ClientContext) (d : Draw) (db : Db)
      → active_in d.family_id db.tokens ≡ 0
      → AtMostOne db.tokens
      → AtMostOne (handle e c d db).tokens
  unfolding handle
  handle-AtMostOne (registers email password name) c d db fresh h =
      Adds-AtMostOne d.family_id _ db (register-Adds x settings c d email password name) fresh h
  handle-AtMostOne (logs_in email password) c d db fresh h =
      Adds-AtMostOne d.family_id _ db (authenticate-Adds x settings c d email password) fresh h
  handle-AtMostOne (refreshes token) c d db fresh h =
      refresh_session-AtMostOne x settings c d db token h
  handle-AtMostOne (logs_out token) c d db fresh h = logout-AtMostOne x settings c d db token h
  handle-AtMostOne (logs_out_everywhere user) c d db fresh h =
      logout_everywhere-AtMostOne x settings c d db user h

  -- From a database where no family has two active tokens, no sequence of registrations, logins,
  -- refreshes and logouts leads to one where a family has two.
  pub Reach-AtMostOne :
      {start db : Db} → AtMostOne start.tokens → Reach start db → AtMostOne db.tokens
  Reach-AtMostOne h here = h
  Reach-AtMostOne h (next {db = db} e c d r fresh) =
      handle-AtMostOne e c d db fresh (Reach-AtMostOne h r)
