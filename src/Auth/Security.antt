-- ===== src/Auth/Security.antt =====
-- backend/app/core/security.py
pub mod Claims
use secondbrain_ai.Prelude.{
  ℕ, ◌+◌, ◌*◌, ◌/◌, Bool, true, false, Option, none, some, List, [], ◌∷◌, length, ltb,
  if◌then◌else◌,
}
use secondbrain_ai.Prelude.Text.{Text, codes, text_eq}
use secondbrain_ai.Prelude.Outcome.{Outcome, ok, raised, ◌>>=◌, ◌>>◌}
use secondbrain_ai.Auth.Records.{
  AuthError, authentication_error, value_error, TokenType, access, refresh, TokenClaims, IdText,
  uuid, other, Payload, JwtError, expired_signature, invalid_token, Externals,
}

-- `len(text.encode("utf-8"))`
unfoldable pub utf8_length : Text → ℕ
utf8_length [] = 0
utf8_length (c ∷ t) =
    (if ltb c 0x80 then 1 else if ltb c 0x800 then 2 else if ltb c 0x10000 then 3 else 4)
    + utf8_length t

abbrev pub max_password_bytes : ℕ
max_password_bytes = 1024

abbrev pub min_password_length : ℕ
min_password_length = 8

-- `_guard_password_length`
unfoldable pub guard_password_length : Text → Outcome AuthError (Unit {0})
unfolding utf8_length
guard_password_length password =
    if ltb (length password) min_password_length
    then raised (value_error "Password must be at least 8 characters.")
    else if ltb max_password_bytes (utf8_length password)
    then raised (value_error "Password is too long.")
    else ok tt

-- `TokenType.value`
abbrev pub type_value : TokenType → Text
type_value access = codes "access"
type_value refresh = codes "refresh"

-- `uuid.UUID(text)`: none is the `ValueError`.
abbrev pub parse_uuid : IdText → Option ℕ
parse_uuid (uuid n) = some n
parse_uuid (other t) = none

abbrev pub malformed : AuthError
malformed = authentication_error "The token is malformed."

abbrev or_malformed {ℓ} : {A : Type ℓ} → Option A → Outcome AuthError A
or_malformed none = raised malformed
or_malformed (some a) = ok a

-- `uuid.UUID(payload["fam"]) if payload.get("fam") else None`
abbrev parse_family : Option IdText → Outcome AuthError (Option ℕ)
parse_family none = ok none
parse_family (some (uuid n)) = ok (some n)
parse_family (some (other [])) = ok none
parse_family (some (other (c ∷ t))) = raised malformed

-- Seconds as microseconds.
abbrev pub second : ℕ
second = 1_000_000

-- The dictionary that `create_token` signs.
abbrev pub payload_of : TokenClaims → Payload
payload_of claims = record {
  sub = uuid claims.subject;
  kind = type_value claims.token_type;
  jti = uuid claims.jti;
  iat = claims.issued_at / second;
  exp = claims.expires_at / second;
  fam = elim claims.family_id [ none ↦ none | some f ↦ some (uuid f) ];
}

module _ (x : Externals) where
  unfoldable pub hash_password : ℕ → Text → Outcome AuthError Text
  unfolding guard_password_length
  hash_password salt password = do guard_password_length password; ok (x.hash salt password)

  unfoldable pub verify_password : Text → Text → Bool
  unfolding utf8_length
  verify_password password hashed =
      if ltb max_password_bytes (utf8_length password) then false else x.verify hashed password

  unfoldable pub needs_rehash : Text → Bool
  needs_rehash hashed = elim (x.check_needs_rehash hashed) [ none ↦ true | some b ↦ b ]

  -- `create_token` at a time, with the `jti` that it draws.
  unfoldable pub create_token : ℕ → ℕ → TokenType → Text → ℕ → Option ℕ → ℕ → Text × TokenClaims
  create_token now subject token_type secret_key expires_in family_id jti =
      let claims : TokenClaims = record {
        subject = subject;
        token_type = token_type;
        jti = jti;
        issued_at = now;
        expires_at = now + expires_in;
        family_id = family_id;
      } in
      (x.encode (payload_of claims) secret_key, claims)

  claims_of : TokenType → Payload → Outcome AuthError TokenClaims
  claims_of expected p = do
    subject ← or_malformed (parse_uuid p.sub)
    jti ← or_malformed (parse_uuid p.jti)
    family_id ← parse_family p.fam
    ok (record {
      subject = subject;
      token_type = expected;
      jti = jti;
      issued_at = p.iat * second;
      expires_at = p.exp * second;
      family_id = family_id;
    })

  jwt_decode : ℕ → Text → Text → Outcome AuthError Payload
  jwt_decode now token secret_key = elim (x.decode token secret_key now) [
    | ok p ↦ ok p
    | raised e ↦ elim e [
      | expired_signature ↦ raised (authentication_error "The token has expired.")
      | invalid_token ↦ raised (authentication_error "The token is invalid.")
    ]
  ]

  -- `decode_token` at a time.
  unfoldable pub decode_token : ℕ → Text → Text → TokenType → Outcome AuthError TokenClaims
  unfolding jwt_decode claims_of text_eq
  decode_token now token secret_key expected = do
    p ← jwt_decode now token secret_key
    if text_eq p.kind (type_value expected)
        then claims_of expected p
        else raised (authentication_error "The token is not valid for this operation.")
