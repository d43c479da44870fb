-- ===== src/Auth/Security/Claims.antt =====
-- What `decode_token` makes of a token of `create_token`.
use secondbrain_ai.Prelude.{
  ℕ, ◌*◌, ◌/◌, ◌≡◌, refl, ◌∙◌, Bool, true, false, Option, arith, if◌then◌else◌,
}
use secondbrain_ai.Prelude.Text.{Text, text_eq}
use secondbrain_ai.Prelude.Outcome.{ok, raised}
use secondbrain_ai.Auth.Records.{
  authentication_error, TokenType, access, refresh, TokenClaims, Externals,
}
use secondbrain_ai.Auth.Security.{
  type_value, payload_of, second, create_token, claims_of, jwt_decode, decode_token,
}

abbrev pub same_type : TokenType → TokenType → Bool
same_type access access = true
same_type access refresh = false
same_type refresh access = false
same_type refresh refresh = true

-- The claims as they come back: times are cut to whole seconds.
abbrev pub whole_seconds : TokenClaims → TokenClaims
whole_seconds c = record c {
  issued_at = c.issued_at / second * second;
  expires_at = c.expires_at / second * second;
}

claims_of-payload_of :
    (x : Externals) (kind : TokenType) (c : TokenClaims)
    → c.token_type ≡ kind
    → claims_of x kind (payload_of c) ≡ ok (whole_seconds c)
unfolding claims_of
claims_of-payload_of x kind c e = ground arith

types_differ : (a b : TokenType) → text_eq (type_value a) (type_value b) ≡ same_type a b
unfolding text_eq
types_differ access access = refl
types_differ access refresh = refl
types_differ refresh access = refl
types_differ refresh refresh = refl

decode_token_ok :
    (x : Externals) (later : ℕ) (token key : Text) (kind expected : TokenType) (c : TokenClaims)
    → c.token_type ≡ kind
    → x.decode token key later ≡ ok (payload_of c)
    → decode_token x later token key expected ≡ (
        if text_eq (type_value kind) (type_value expected)
        then claims_of x expected (payload_of c)
        else raised (authentication_error "The token is not valid for this operation."))
unfolding decode_token jwt_decode
decode_token_ok x later token key kind expected c e h = rw (h, decode_token, jwt_decode) (rw e)

decoded_claims :
    (x : Externals) (kind expected : TokenType) (c : TokenClaims)
    → c.token_type ≡ kind
    → (if same_type kind expected
        then claims_of x expected (payload_of c)
        else raised (authentication_error "The token is not valid for this operation."))
      ≡ (if same_type kind expected
          then ok (whole_seconds c)
          else raised (authentication_error "The token is not valid for this operation."))
decoded_claims x access access c e = claims_of-payload_of x access c e
decoded_claims x access refresh c e = refl
decoded_claims x refresh access c e = refl
decoded_claims x refresh refresh c e = claims_of-payload_of x refresh c e

-- If the library verifies the token that was made, then decoding it for its own type gives back its
-- claims, the times cut to seconds, and decoding it for the other type is refused: a refresh token is
-- never taken for an access token.
pub decode_token-create_token :
    (x : Externals) (now later subject ttl jti : ℕ) (family : Option ℕ) (kind expected : TokenType)
    (key : Text)
    → x.decode (create_token x now subject kind key ttl family jti).0 key later
      ≡ ok (payload_of (create_token x now subject kind key ttl family jti).1)
    → decode_token x later (create_token x now subject kind key ttl family jti).0 key expected ≡ (
        if same_type kind expected
        then ok (whole_seconds (create_token x now subject kind key ttl family jti).1)
        else raised (authentication_error "The token is not valid for this operation."))
decode_token-create_token x now later subject ttl jti family kind expected key h =
    let (token, claims) = create_token x now subject kind key ttl family jti in
    decode_token_ok x later token key kind expected claims (unfold create_token in refl) h
    ∙ rw (types_differ kind expected)
        (decoded_claims x kind expected claims (unfold create_token in refl))
