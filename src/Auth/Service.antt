-- ===== src/Auth/Service.antt =====
-- `AuthService`, method by method, and the transaction in which a request calls it.
pub mod Leaves
mod Monad
pub mod Request
pub mod Replay
pub mod Rotation
pub mod Login
pub mod OneActive
mod Tests
pub use Monad.*
use secondbrain_ai.Prelude.{
  ℕ, ◌+◌, ◌*◌, ◌≤◌, Bool, true, false, not, Option, none, some, List, [], ◌∷◌, ◌++◌, take, leb,
  if◌then◌else◌,
}
use secondbrain_ai.Prelude.Text.{Text, strip}
use secondbrain_ai.Prelude.Outcome.{Outcome, ok, raised}
use secondbrain_ai.Auth.Records.{
  User, RefreshToken, AuthError, authentication_error, invalid_session_error, conflict_error,
  value_error, integrity_error, access, refresh, TokenClaims, Externals, Settings, ClientContext,
  IssuedTokens, Draw,
}
use secondbrain_ai.Auth.Security.{
  hash_password, verify_password, needs_rehash, create_token, decode_token, second,
}
use secondbrain_ai.Auth.Tokens.{
  get_by_jti, revoke_family, revoke_all_for_user, mark_rotated, get_user, find_by_email,
  set_password_hash, normalize_email, get_by_email, email_exists,
}

-- `session.add` and a flush, with the unique constraints of the tables.
pub add_token : RefreshToken → Action (Unit {0})
unfolding get_by_jti
add_token t = do
  taken ← tokens_now (get_by_jti t.jti)
  elim taken [ none ↦ set_tokens (λ ts. ts ++ (t ∷ [])) | some u ↦ raise integrity_error ]

pub add_user : User → Action (Unit {0})
unfolding get_user find_by_email
add_user u = do
  same_email ← users_now (find_by_email u.email)
  same_id ← users_now (get_user u.id)
  elim same_email [
    | some v ↦ raise integrity_error
    | none ↦ elim same_id [
      | some v ↦ raise integrity_error
      | none ↦ set_users (λ us. us ++ (u ∷ []))
    ]
  ]

-- `_revoke_family_durably`: revoke and commit.
pub revoke_family_durably : ℕ → ℕ → Action (Unit {0})
unfolding revoke_family
revoke_family_durably family now = do set_tokens (revoke_family family now); commit

-- `(context.user_agent or None) and context.user_agent[:512]`
abbrev pub short_agent : Option Text → Option Text
short_agent none = none
short_agent (some []) = none
short_agent (some (c ∷ t)) = some (take 512 (c ∷ t))

abbrev pub minute : ℕ
minute = 60 * second

abbrev pub day : ℕ
day = 86400 * second

abbrev mark_if_rotating : ℕ → ℕ → Option RefreshToken → Action (Unit {0})
unfolding mark_rotated
mark_if_rotating by now none = pure tt
mark_if_rotating by now (some rotating) = set_tokens (mark_rotated rotating.jti by now)

module _ (x : Externals) (settings : Settings) (context : ClientContext) (draw : Draw) where
  -- `_persist_refresh_token`
  pub persist_refresh_token : User → TokenClaims → ℕ → Action (Unit {0})
  unfolding add_token
  persist_refresh_token user claims family = add_token (record {
    jti = claims.jti;
    family_id = family;
    user_id = user.id;
    expires_at = claims.expires_at;
    revoked_at = none;
    replaced_by_jti = none;
    user_agent = short_agent context.user_agent;
    ip_address = context.ip_address;
    is_active = true;
  })

  -- `_issue_token_pair`
  pub issue_token_pair : User → Option ℕ → Option RefreshToken → Action IssuedTokens
  unfolding create_token persist_refresh_token mark_if_rotating
  issue_token_pair user family_id rotating =
      let access_ttl = settings.access_token_ttl_minutes * minute in
      let refresh_ttl = settings.refresh_token_ttl_days * day in
      let family : ℕ = elim family_id [ none ↦ draw.family_id | some f ↦ f ] in
      let (access_token, _) =
        create_token x draw.now user.id access settings.secret_key access_ttl none
          draw.access_jti in
      let (refresh_token, refresh_claims) =
        create_token x draw.now user.id refresh settings.secret_key refresh_ttl (some family)
          draw.refresh_jti in
      do
        persist_refresh_token user refresh_claims family
        mark_if_rotating refresh_claims.jti draw.now rotating
        pure (record {
          access_token = access_token;
          refresh_token = refresh_token;
          access_expires_in = settings.access_token_ttl_minutes * 60;
          refresh_expires_at = refresh_claims.expires_at;
          user = user;
        })

  pub register : Text → Text → Text → Action IssuedTokens
  unfolding issue_token_pair add_user email_exists normalize_email hash_password strip
  register email password display_name = do
    exists ← users_now (email_exists x (normalize_email x email))
    raise_if exists (conflict_error "An account with that email already exists.")
    hashed ← lift (hash_password x draw.salt password)
    let user : User = record {
      id = draw.user_id;
      email = normalize_email x email;
      display_name = strip display_name;
      hashed_password = hashed;
      is_active = true;
      is_superuser = false;
    }
    add_user user
    issue_token_pair user none none

  -- The hash of a user whose hash is out of date is written anew.
  pub upgrade_hash : User → Text → Action User
  unfolding needs_rehash hash_password set_password_hash
  upgrade_hash user password =
      if needs_rehash x user.hashed_password
      then (do
        hashed ← lift (hash_password x draw.salt password)
        set_users (set_password_hash user.id hashed)
        pure (record user { hashed_password = hashed }))
      else pure user

  -- `authenticate` for a user that was found.
  pub authenticate_user : Text → User → Action IssuedTokens
  unfolding issue_token_pair verify_password upgrade_hash
  authenticate_user password user = do
    raise_if (not (verify_password x password user.hashed_password))
        (authentication_error "Incorrect email or password.")
    raise_if (not user.is_active) (authentication_error "This account has been deactivated.")
    current ← upgrade_hash user password
    issue_token_pair current none none

  -- `authenticate` after the lookup.
  pub authenticate_found : Text → Option User → Action IssuedTokens
  unfolding authenticate_user
  authenticate_found password none = raise (authentication_error "Incorrect email or password.")
  authenticate_found password (some user) = authenticate_user password user

  pub authenticate : Text → Text → Action IssuedTokens
  unfolding authenticate_found
  authenticate email password = do
    found ← users_now (get_by_email x email)
    authenticate_found password found

  -- `refresh` once the stored token is known to be active and not expired.
  pub rotate : RefreshToken → Option User → Action IssuedTokens
  unfolding issue_token_pair revoke_family_durably
  rotate stored none = do
    revoke_family_durably stored.family_id draw.now
    raise (invalid_session_error "This account is no longer active.")
  rotate stored (some user) =
      if user.is_active then issue_token_pair user (some stored.family_id) (some stored) else (do
        revoke_family_durably stored.family_id draw.now
        raise (invalid_session_error "This account is no longer active."))

  -- `refresh` for a token that was found.
  pub refresh_stored : RefreshToken → Action IssuedTokens
  unfolding rotate revoke_family_durably get_user
  refresh_stored stored =
      if not stored.is_active
      then (do
        revoke_family_durably stored.family_id draw.now
        raise (invalid_session_error "This session was revoked. Please sign in again."))
      else if leb stored.expires_at draw.now
      then raise (invalid_session_error "The session has expired.")
      else (do user ← users_now (get_user stored.user_id); rotate stored user)

  -- `except AuthenticationError as exc: raise InvalidSessionError(str(exc))`
  abbrev pub as_invalid_session : {A : Type 0} → Outcome AuthError A → Outcome AuthError A
  as_invalid_session (ok a) = ok a
  as_invalid_session (raised (authentication_error m)) = raised (invalid_session_error m)
  as_invalid_session (raised e) = raised e

  -- `refresh` after the lookup.
  pub refresh_found : Option RefreshToken → Action IssuedTokens
  unfolding refresh_stored
  refresh_found none = raise (invalid_session_error "The session is no longer valid.")
  refresh_found (some stored) = refresh_stored stored

  -- `refresh`
  pub refresh_session : Text → Action IssuedTokens
  unfolding decode_token refresh_found get_by_jti
  refresh_session token = do
    claims ← lift (as_invalid_session (decode_token x draw.now token settings.secret_key refresh))
    stored ← tokens_now (get_by_jti claims.jti)
    refresh_found stored

  pub logout_row : Option RefreshToken → Action (Unit {0})
  unfolding revoke_family
  logout_row none = pure tt
  logout_row (some row) = set_tokens (revoke_family row.family_id draw.now)

  -- `logout` once the token is decoded, or not.
  pub logout_claims : Outcome AuthError TokenClaims → Action (Unit {0})
  unfolding logout_row
  logout_claims (raised e) = pure tt
  logout_claims (ok claims) = do stored ← tokens_now (get_by_jti claims.jti); logout_row stored

  pub logout : Option Text → Action (Unit {0})
  unfolding logout_claims decode_token
  logout none = pure tt
  logout (some []) = pure tt
  logout (some (c ∷ t)) =
      logout_claims (decode_token x draw.now (c ∷ t) settings.secret_key refresh)

  pub logout_everywhere : ℕ → Action ℕ
  unfolding revoke_all_for_user
  logout_everywhere user_id = do
    done ← tokens_now (revoke_all_for_user user_id draw.now)
    set_tokens (λ ts. done.0)
    pure done.1

  pub resolve_access_token : Text → Action User
  unfolding decode_token get_user
  resolve_access_token token = do
    claims ← lift (decode_token x draw.now token settings.secret_key access)
    found ← users_now (get_user claims.subject)
    elim found [
      | none ↦ raise (authentication_error "This account is no longer active.")
      | some user ↦
          if user.is_active
          then pure user
          else raise (authentication_error "This account is no longer active.")
    ]
