-- ===== src/Auth/Records.antt =====
-- The rows, the errors, the transaction of a request, and the libraries that the code calls.
use Prim.Native.String.{String}
use secondbrain_ai.Prelude.{ℕ, Bool, Option, List}
use secondbrain_ai.Prelude.Text.{Text}
use secondbrain_ai.Prelude.Outcome.{Outcome}

-- `User`; UUIDs are numbers, times are microseconds.
pub record User : Type 0 where
  pub id : ℕ
  pub email : Text
  pub display_name : Text
  pub hashed_password : Text
  pub is_active : Bool
  pub is_superuser : Bool

-- `RefreshToken`
pub record RefreshToken : Type 0 where
  pub jti : ℕ
  pub family_id : ℕ
  pub user_id : ℕ
  pub expires_at : ℕ
  pub revoked_at : Option ℕ
  pub replaced_by_jti : Option ℕ
  pub user_agent : Option Text
  pub ip_address : Option Text
  pub is_active : Bool

pub record Db : Type 0 where
  pub users : List User
  pub tokens : List RefreshToken

-- A session's transaction: what it has written, and what is durable.
pub record Session : Type 0 where
  pub working : Db
  pub durable : Db

-- The exceptions, with their messages; `integrity_error` is a unique constraint of the database.
pub data AuthError : Type 0 where
  authentication_error invalid_session_error conflict_error value_error : String → AuthError
  integrity_error : AuthError

-- `TokenType`
pub data TokenType : Type 0 where
  access refresh : TokenType

-- `TokenClaims`
pub record TokenClaims : Type 0 where
  pub subject : ℕ
  pub token_type : TokenType
  pub jti : ℕ
  pub issued_at : ℕ
  pub expires_at : ℕ
  pub family_id : Option ℕ

-- A claim that should be the text of a UUID.
pub data IdText : Type 0 where
  uuid : ℕ → IdText
  other : Text → IdText

-- The payload of a JWT; `iat` and `exp` are whole seconds.
pub record Payload : Type 0 where
  pub sub : IdText
  pub kind : Text
  pub jti : IdText
  pub iat : ℕ
  pub exp : ℕ
  pub fam : Option IdText

pub data JwtError : Type 0 where
  expired_signature invalid_token : JwtError

-- PyJWT, argon2 and `str.lower`: what the code calls and does not define.
pub record Externals : Type 0 where
  -- `jwt.encode(payload, key)`, `jwt.decode(token, key)` at a time
  pub encode : Payload → Text → Text
  pub decode : Text → Text → ℕ → Outcome JwtError Payload
  -- `_hasher.hash` with the salt that it draws; `_hasher.verify`, false where it raises
  pub hash : ℕ → Text → Text
  pub verify : Text → Text → Bool
  -- `_hasher.check_needs_rehash`, none for `InvalidHashError`
  pub check_needs_rehash : Text → Option Bool
  pub lower : Text → Text

-- The settings that the service reads.
pub record Settings : Type 0 where
  pub secret_key : Text
  pub access_token_ttl_minutes : ℕ
  pub refresh_token_ttl_days : ℕ

-- `ClientContext`
pub record ClientContext : Type 0 where
  pub user_agent : Option Text
  pub ip_address : Option Text

-- `IssuedTokens`
pub record IssuedTokens : Type 0 where
  pub access_token : Text
  pub refresh_token : Text
  pub access_expires_in : ℕ
  pub refresh_expires_at : ℕ
  pub user : User

-- What one call draws from outside: the clock, the values of `uuid4` and a salt.
pub record Draw : Type 0 where
  pub now : ℕ
  pub user_id : ℕ
  pub family_id : ℕ
  pub access_jti : ℕ
  pub refresh_jti : ℕ
  pub salt : ℕ
