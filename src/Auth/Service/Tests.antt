-- ===== src/Auth/Service/Tests.antt =====
-- Runs of the service over a small database, and instances of its theorems.
use secondbrain_ai.Prelude.{◌≡◌, refl, Bool, true, false, none, some, [], ◌∷◌, arith}
use secondbrain_ai.Prelude.Text.{codes, text_eq}
use secondbrain_ai.Prelude.Outcome.{ok, raised}
use secondbrain_ai.Auth.Records.{
  User, RefreshToken, Db, invalid_session_error, authentication_error, access, refresh, TokenClaims,
  uuid, Payload, Externals, Settings, ClientContext, Draw, IssuedTokens,
}
use secondbrain_ai.Auth.Security.{create_token, decode_token, verify_password}
use secondbrain_ai.Auth.Security.Claims.{decode_token-create_token}
use secondbrain_ai.Auth.Tokens.{get_by_jti, revoke_family, get_by_email}
use secondbrain_ai.Auth.Tokens.Counting.{active_in}
use secondbrain_ai.Auth.Service.{authenticate, refresh_session}
use secondbrain_ai.Auth.Service.Request.{run}
use secondbrain_ai.Auth.Service.Replay.{refresh_replayed}
use secondbrain_ai.Auth.Service.Rotation.{Rotated, refresh_rotates, refresh_once}
use secondbrain_ai.Auth.Service.Login.{authenticate_no_enumeration, authenticate_ok}
use secondbrain_ai.Auth.Service.OneActive.{AtMostOne, logs_in, handle, Reach, Reach-AtMostOne}

-- A library that signs nothing and knows one refresh token, of user 1 with the identifier 7.
abbrev payload : Payload
payload = record {
  sub = uuid 1;
  kind = codes "refresh";
  jti = uuid 7;
  iat = 0;
  exp = 900;
  fam = some (uuid 3);
}

abbrev lib : Externals
lib = record {
  encode = λ p k. codes "signed";
  decode = λ t k now. ok payload;
  hash = λ salt password. password;
  verify = λ hashed password. text_eq hashed password;
  check_needs_rehash = λ hashed. some false;
  lower = λ t. t;
}

abbrev settings : Settings
settings = record {
  secret_key = codes "key";
  access_token_ttl_minutes = 30;
  refresh_token_ttl_days = 14;
}

abbrev browser : ClientContext
browser = record { user_agent = none; ip_address = none }

abbrev draw : Draw
draw = record { now = 5; user_id = 2; family_id = 4; access_jti = 8; refresh_jti = 9; salt = 0 }

abbrev ada : User
ada = record {
  id = 1;
  email = codes "a@b";
  display_name = codes "Ada";
  hashed_password = codes "password";
  is_active = true;
  is_superuser = false;
}

abbrev token_row : Bool → RefreshToken
token_row active = record {
  jti = 7;
  family_id = 3;
  user_id = 1;
  expires_at = 900;
  revoked_at = none;
  replaced_by_jti = none;
  user_agent = none;
  ip_address = none;
  is_active = active;
}

abbrev db : Bool → Db
db active = record { users = ada ∷ []; tokens = token_row active ∷ [] }

abbrev claims : TokenClaims
claims = record {
  subject = 1;
  token_type = refresh;
  jti = 7;
  issued_at = 0;
  expires_at = 900_000_000;
  family_id = some 3;
}

abbrev issued : IssuedTokens
issued = record {
  access_token = codes "signed";
  refresh_token = codes "signed";
  access_expires_in = 1800;
  refresh_expires_at = 1_209_600_000_005;
  user = ada;
}

abbrev after : Db
after = (run (refresh_session lib settings browser draw (codes "signed")) (db true)).1

decoded : decode_token lib 5 (codes "signed") (codes "key") refresh ≡ ok claims
unfolding decode_token
decoded = refl

refreshed :
    run (refresh_session lib settings browser draw (codes "signed")) (db true) ≡ (ok issued, after)
unfolding run refresh_session
refreshed = refl

refresh_replayed_example :
    (run (refresh_session lib settings browser draw (codes "signed")) (db false) ≡ (
      raised (invalid_session_error "This session was revoked. Please sign in again."),
      record (db false) { tokens = revoke_family 3 5 (db false).tokens },
    ))
    × (active_in 3
          (run (refresh_session lib settings browser draw (codes "signed")) (db false)).1.tokens
        ≡ 0)
unfolding get_by_jti
refresh_replayed_example =
    refresh_replayed lib settings browser draw (db false) (codes "signed") claims (token_row false)
      decoded refl refl

refresh_rotates_example : Rotated lib settings browser draw claims (db true) after
refresh_rotates_example =
    refresh_rotates lib settings browser draw (db true) after (codes "signed") claims issued decoded
      refreshed

refresh_once_example :
    (stored : RefreshToken) × (get_by_jti 7 (db true).tokens ≡ some stored)
    × ((run (refresh_session lib settings browser draw (codes "signed")) after).0
        ≡ raised (invalid_session_error "This session was revoked. Please sign in again."))
    × (active_in stored.family_id
          (run (refresh_session lib settings browser draw (codes "signed")) after).1.tokens
        ≡ 0)
refresh_once_example =
    refresh_once lib settings browser browser draw draw (db true) after (codes "signed") claims
      issued decoded decoded refreshed

authenticate_no_enumeration_example :
    (run (authenticate lib settings browser draw (codes "x@y") (codes "wrong")) (db true)
      ≡ run (authenticate lib settings browser draw (codes "a@b") (codes "wrong")) (db true))
    × (run (authenticate lib settings browser draw (codes "x@y") (codes "wrong")) (db true)
        ≡ (raised (authentication_error "Incorrect email or password."), db true))
unfolding get_by_email verify_password
authenticate_no_enumeration_example =
    authenticate_no_enumeration lib settings browser draw (db true) (codes "x@y") (codes "a@b")
      (codes "wrong") ada refl refl refl

logged_in :
    run (authenticate lib settings browser draw (codes " a@b") (codes "password")) (db true) ≡ (
      ok issued,
      (run (authenticate lib settings browser draw (codes " a@b") (codes "password")) (db true)).1,
    )
unfolding run authenticate get_by_email
logged_in = refl

authenticate_ok_example :
    (user : User) × (get_by_email lib (codes " a@b") (db true).users ≡ some user)
    × (verify_password lib (codes "password") user.hashed_password ≡ true)
    × (user.is_active ≡ true)
    × (issued.user.id ≡ user.id)
authenticate_ok_example =
    authenticate_ok lib settings browser draw (db true) _ (codes " a@b") (codes "password") issued
      logged_in

decode_token-create_token_example :
    decode_token lib 5
      (create_token lib 0 1 refresh (codes "key") 900_000_000 (some 3) 7).0
      (codes "key")
      access
    ≡ raised (authentication_error "The token is not valid for this operation.")
unfolding create_token
decode_token-create_token_example =
    decode_token-create_token lib 0 5 1 900_000_000 7 (some 3) refresh access (codes "key") refl

db-AtMostOne : AtMostOne (db true).tokens
db-AtMostOne f = ground arith

Reach-AtMostOne_example :
    AtMostOne
      (handle lib settings (logs_in (codes "a@b") (codes "password")) browser draw (db true)).tokens
Reach-AtMostOne_example =
    Reach-AtMostOne lib settings {start = db true} db-AtMostOne
      (Reach.next (logs_in (codes "a@b") (codes "password")) browser draw Reach.here refl)
