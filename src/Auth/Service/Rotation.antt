-- ===== src/Auth/Service/Rotation.antt =====
-- A successful refresh spends the token that was presented, and issues one of the same family.
use secondbrain_ai.Prelude.{
  ℕ, ◌+◌, ◌*◌, ◌<◌, ◌≡◌, refl, sym, ap, subst, true, false, Option, none, some, List, [], ◌∷◌, ◌++◌,
  arith, Option-cases, inl, inr,
}
use secondbrain_ai.Prelude.Text.{Text}
use secondbrain_ai.Prelude.Outcome.{ok, raised}
use secondbrain_ai.Auth.Records.{
  User, RefreshToken, Db, invalid_session_error, TokenClaims, Externals, Settings, ClientContext,
  Draw, IssuedTokens,
}
use secondbrain_ai.Auth.Security.{create_token}
use secondbrain_ai.Auth.Tokens.{get_by_jti, mark_rotated, get_user}
use secondbrain_ai.Auth.Tokens.Counting.{active_in}
use secondbrain_ai.Auth.Service.{
  refresh_session, refresh_stored, rotate, issue_token_pair, persist_refresh_token, add_token,
  revoke_family_durably, short_agent, day,
}
use secondbrain_ai.Auth.Service.Request.{run}
use secondbrain_ai.Auth.Service.Replay.{Presents, refresh_replayed}

pub get_by_jti-jti :
    (jti : ℕ) (ts : List RefreshToken) (t : RefreshToken) → get_by_jti jti ts ≡ some t → t.jti ≡ jti
unfolding get_by_jti
get_by_jti-jti jti [] t h = cc
get_by_jti-jti jti (u ∷ ts) t h = ground (arith, get_by_jti-jti jti ts t)

abbrev pub spent_row : RefreshToken → ℕ → ℕ → RefreshToken
spent_row t by now = record t {
  is_active = false;
  revoked_at = some now;
  replaced_by_jti = some by;
}

get_by_jti-mark_rotated :
    (jti by now : ℕ) (ts us : List RefreshToken) (t : RefreshToken)
    → get_by_jti jti ts ≡ some t
    → get_by_jti jti (mark_rotated jti by now (ts ++ us)) ≡ some (spent_row t by now)
unfolding get_by_jti mark_rotated
get_by_jti-mark_rotated jti by now [] us t h = cc
get_by_jti-mark_rotated jti by now (u ∷ ts) us t h =
    ground (arith, get_by_jti-mark_rotated jti by now ts us t)

module _ (x : Externals) (settings : Settings) (context : ClientContext) (draw : Draw) where
  -- The row of the token that a refresh issues.
  abbrev pub next_row : User → RefreshToken → RefreshToken
  next_row user stored = record {
    jti = draw.refresh_jti;
    family_id = stored.family_id;
    user_id = user.id;
    expires_at = draw.now + settings.refresh_token_ttl_days * day;
    revoked_at = none;
    replaced_by_jti = none;
    user_agent = short_agent context.user_agent;
    ip_address = context.ip_address;
    is_active = true;
  }

  -- What a refresh that succeeded found and left.
  pub record Rotated (claims : TokenClaims) (db after : Db) : Type 0 where
    pub stored : RefreshToken
    pub user : User
    pub found : get_by_jti claims.jti db.tokens ≡ some stored
    pub was_active : stored.is_active ≡ true
    pub not_expired : draw.now < stored.expires_at
    pub owner : get_user stored.user_id db.users ≡ some user
    pub owner_active : user.is_active ≡ true
    pub unused : get_by_jti draw.refresh_jti db.tokens ≡ none
    pub tokens :
        after.tokens
        ≡ mark_rotated stored.jti draw.refresh_jti draw.now (db.tokens ++ next_row user stored ∷ [])
    pub users : after.users ≡ db.users
    pub spent :
        get_by_jti claims.jti after.tokens ≡ some (spent_row stored draw.refresh_jti draw.now)

  refresh_session-run :
      (db : Db) (token : Text) (claims : TokenClaims) (stored : RefreshToken)
      → Presents x settings context draw token claims
      → get_by_jti claims.jti db.tokens ≡ some stored
      → run (refresh_session x settings context draw token) db
        ≡ run (refresh_stored x settings context draw stored) db
  unfolding run refresh_session
  refresh_session-run db token claims stored decoded found = rw (decoded, run) (rw found)

  refresh_session-found :
      (db after : Db) (token : Text) (claims : TokenClaims) (issued : IssuedTokens)
      → Presents x settings context draw token claims
      → run (refresh_session x settings context draw token) db ≡ (ok issued, after)
      → (stored : RefreshToken) × (get_by_jti claims.jti db.tokens ≡ some stored)
  unfolding run refresh_session
  refresh_session-found db after token claims issued decoded h =
      elim (Option-cases (get_by_jti claims.jti db.tokens)) [
        | inl e ↦ cc (rw e at (rw (decoded, run) at h))
        | inr found ↦ found
      ]

  refresh_stored_ok :
      (db after : Db) (stored : RefreshToken) (issued : IssuedTokens)
      → run (refresh_stored x settings context draw stored) db ≡ (ok issued, after)
      → (stored.is_active ≡ true)
        × (draw.now < stored.expires_at)
        × (run (rotate x settings context draw stored (get_user stored.user_id db.users)) db
            ≡ (ok issued, after))
  unfolding run refresh_stored revoke_family_durably
  refresh_stored_ok db after stored issued h = ground arith

  rotate_ok :
      (db after : Db) (stored : RefreshToken) (found : Option User) (issued : IssuedTokens)
      → run (rotate x settings context draw stored found) db ≡ (ok issued, after)
      → (user : User) × (found ≡ some user)
        × (user.is_active ≡ true)
        × (get_by_jti draw.refresh_jti db.tokens ≡ none)
        × (after.tokens
            ≡ mark_rotated stored.jti draw.refresh_jti draw.now
                (db.tokens ++ next_row user stored ∷ []))
        × (after.users ≡ db.users)
  unfolding run rotate issue_token_pair persist_refresh_token add_token create_token
      revoke_family_durably
  rotate_ok db after stored none issued h = cc
  rotate_ok db after stored (some user) issued h =
      (user, refl, ground arith, ground arith, ground arith, ground arith)

  -- A successful refresh was given a stored token that was active and not expired, of a user that is
  -- active; after it the token is spent and names its successor, which is the row that was added.
  pub refresh_rotates :
      (db after : Db) (token : Text) (claims : TokenClaims) (issued : IssuedTokens)
      → Presents x settings context draw token claims
      → run (refresh_session x settings context draw token) db ≡ (ok issued, after)
      → Rotated claims db after
  refresh_rotates db after token claims issued decoded h =
      let (stored, found) = refresh_session-found db after token claims issued decoded h in
      let same = refresh_session-run db token claims stored decoded found in
      let (active, alive, rotated) = refresh_stored_ok db after stored issued (rw same at h) in
      let (user, owner, owner_active, unused, tokens, users) =
        rotate_ok db after stored (get_user stored.user_id db.users) issued rotated in
      record {
        stored = stored;
        user = user;
        found = found;
        was_active = active;
        not_expired = alive;
        owner = owner;
        owner_active = owner_active;
        unused = unused;
        tokens = tokens;
        users = users;
        spent = rw tokens (
            subst
              (λ j.
                get_by_jti claims.jti (
                  mark_rotated j draw.refresh_jti draw.now (db.tokens ++ next_row user stored ∷ []))
                ≡ some (spent_row stored draw.refresh_jti draw.now))
              (sym (get_by_jti-jti claims.jti db.tokens stored found))
              (get_by_jti-mark_rotated claims.jti draw.refresh_jti draw.now db.tokens _ stored
                found));
      }

-- A refresh token works once: if a refresh succeeded, then presenting the same token again, at any
-- later time, is refused, and leaves no active token in the family, not even the one just issued.
pub refresh_once :
    (x : Externals) (settings : Settings) (context context' : ClientContext) (draw draw' : Draw)
    (db after : Db) (token : Text) (claims : TokenClaims) (issued : IssuedTokens)
    → Presents x settings context draw token claims
    → Presents x settings context' draw' token claims
    → run (refresh_session x settings context draw token) db ≡ (ok issued, after)
    → (stored : RefreshToken) × (get_by_jti claims.jti db.tokens ≡ some stored)
      × ((run (refresh_session x settings context' draw' token) after).0
          ≡ raised (invalid_session_error "This session was revoked. Please sign in again."))
      × (active_in stored.family_id
            (run (refresh_session x settings context' draw' token) after).1.tokens
          ≡ 0)
refresh_once x settings context context' draw draw' db after token claims issued first second h =
    let r = refresh_rotates x settings context draw db after token claims issued first h in
    let (refused, dead) =
      refresh_replayed x settings context' draw' after token claims
        (spent_row r.stored draw.refresh_jti draw.now) second r.spent refl in
    (r.stored, r.found, ap (λ p. p.0) refused, dead)
