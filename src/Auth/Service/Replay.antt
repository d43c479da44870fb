-- ===== src/Auth/Service/Replay.antt =====
-- A refresh token that has been used, or revoked, ends its family.
use secondbrain_ai.Prelude.{◌≡◌, false, some}
use secondbrain_ai.Prelude.Text.{Text}
use secondbrain_ai.Prelude.Outcome.{ok, raised}
use secondbrain_ai.Auth.Records.{
  RefreshToken, Db, invalid_session_error, refresh, TokenClaims, Externals, Settings, ClientContext,
  Draw,
}
use secondbrain_ai.Auth.Security.{decode_token}
use secondbrain_ai.Auth.Tokens.{get_by_jti, revoke_family}
use secondbrain_ai.Auth.Tokens.Counting.{active_in, active_in-revoke_family}
use secondbrain_ai.Auth.Service.{refresh_session, refresh_stored, revoke_family_durably}
use secondbrain_ai.Auth.Service.Request.{run}

module _ (x : Externals) (settings : Settings) (context : ClientContext) (draw : Draw) where
  -- The token verifies, and its claims are these.
  abbrev pub Presents : Text → TokenClaims → Type 0
  Presents token claims = decode_token x draw.now token settings.secret_key refresh ≡ ok claims

  -- Presenting a stored token that is no longer active is refused, and the whole family is revoked:
  -- of the database after the request, rolled back though it is, no token of the family is active.
  pub refresh_replayed :
      (db : Db) (token : Text) (claims : TokenClaims) (stored : RefreshToken)
      → Presents token claims
      → get_by_jti claims.jti db.tokens ≡ some stored
      → stored.is_active ≡ false
      → (run (refresh_session x settings context draw token) db ≡ (
        raised (invalid_session_error "This session was revoked. Please sign in again."),
        record db { tokens = revoke_family stored.family_id draw.now db.tokens },
      ))
        × (active_in stored.family_id
              (run (refresh_session x settings context draw token) db).1.tokens
            ≡ 0)
  unfolding run refresh_session refresh_stored revoke_family_durably
  refresh_replayed db token claims stored decoded found spent =
      let e : run (refresh_session x settings context draw token) db ≡ (
        raised (invalid_session_error "This session was revoked. Please sign in again."),
        record db { tokens = revoke_family stored.family_id draw.now db.tokens },
      ) =
        rw (decoded, run) (rw found (rw spent)) in
      (e, rw e (active_in-revoke_family draw.now stored.family_id db.tokens))
