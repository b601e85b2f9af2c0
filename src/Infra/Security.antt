-- ===== src/Infra/Security.antt =====
-- internal/infra/security/token_service.go: access tokens, which are signed and expire, refresh
-- tokens and one-time tokens. Of the Go library's json, base64, hmac, sha256, hex and rand, what the
-- code uses is a parameter; bytes are a text.
pub mod Tokens
pub mod Quiet
use moneo_backend.Common.{
  ℕ, ◌+◌, ◌/◌, Bool, true, false, not, ◌&&◌, ◌||◌, Text, codes, text_eq, trim_space, is_empty,
  Option, none, some, List, [], ◌∷◌, ◌++◌, ok, err, ltb, leb, ◌==◌, if◌then◌else◌, fail_if,
}
use moneo_backend.Common
use moneo_backend.Domain.Errors.{
  Error, Outcome, jwt_secret_required, invalid_access_token_ttl, invalid_refresh_ttl,
  invalid_one_time_token_ttl, invalid_token, invalid_token_signature, token_expired,
  token_claims_missing, refresh_token_empty, refresh_token_hash_empty, external_failure,
}
use moneo_backend.Domain.Identity.Credentials.{split_at}
use moneo_backend.Infra.Database.{
  Env, World, Action, pure, raise, lift, ◌>>=◌, ◌>>◌, raise_if, clock_now, tick,
}
use moneo_backend.App.Identity.Interfaces.{TokenIssuer}

-- `jwtHeader` and `accessTokenPayload`
pub record JwtHeader : Type 0 where
  pub alg : Text
  pub typ : Text

pub record AccessTokenPayload : Type 0 where
  pub subject : Text
  pub session_id : Text
  pub issued_at : ℕ
  pub expires_at : ℕ

-- What the Go library does; an option is empty where it answers an error.
pub record GoLibrary : Type 0 where
  pub marshal_header : JwtHeader → Option Text
  pub unmarshal_header : Text → Option JwtHeader
  pub marshal_payload : AccessTokenPayload → Option Text
  pub unmarshal_payload : Text → Option AccessTokenPayload
  -- `base64.RawURLEncoding`
  pub encode : Text → Text
  pub decode : Text → Option Text
  -- `hmac` with `sha256`, by the key
  pub hmac : Text → Text → Text
  -- `hex.EncodeToString` of `sha256.Sum256`
  pub digest : Text → Text
  -- 32 bytes of `rand.Read`, by the number of calls made before
  pub random : ℕ → Option Text

-- Durations are at the precision of the times, in microseconds.
pub record TokenServiceConfig : Type 0 where
  pub access_token_ttl : ℕ
  pub refresh_token_ttl : ℕ
  pub jwt_secret : Text

pub record AccessTokenClaims : Type 0 where
  pub subject : Text
  pub session_id : Text
  pub issued_at : ℕ
  pub expires_at : ℕ

-- the checks of `NewTokenService`: an access token lives for 10 to 15 minutes
unfoldable pub check_config : TokenServiceConfig → Outcome (Unit {0})
check_config config =
    Common.◌>>◌ (fail_if (is_empty (trim_space config.jwt_secret)) jwt_secret_required) (
      Common.◌>>◌
        (fail_if (ltb config.access_token_ttl 600000000 || ltb 900000000 config.access_token_ttl)
          invalid_access_token_ttl)
        (fail_if (not (ltb 0 config.refresh_token_ttl)) invalid_refresh_ttl))

-- `Unix()`
unfoldable pub unix : ℕ → ℕ
unix time = time / 1000000

unfoldable pub or_fail : {A : Type 0} → Error → Option A → Outcome A
or_fail e none = err e
or_fail e (some a) = ok a

unfoldable pub is_jwt : JwtHeader → Bool
is_jwt header = text_eq header.alg (codes "HS256") && text_eq header.typ (codes "JWT")

unfoldable pub misses_claims : AccessTokenPayload → Bool
misses_claims p =
    is_empty p.subject || is_empty p.session_id || p.issued_at == 0 || p.expires_at == 0

unfoldable pub claims_of : AccessTokenPayload → AccessTokenClaims
claims_of p = record {
  subject = p.subject;
  session_id = p.session_id;
  issued_at = p.issued_at;
  expires_at = p.expires_at;
}

module _ (env : Env) (go : GoLibrary) (config : TokenServiceConfig) where
  -- the function `signJWT`
  unfoldable pub sign_jwt : Text → Text
  sign_jwt input = go.hmac config.jwt_secret input

  -- `IssueAccessToken`
  unfoldable pub issue_access_token : Text → Text → Action Text
  issue_access_token user_id session_id = do
    now ← clock_now env
    header ← lift (
        or_fail external_failure
          (go.marshal_header (record { alg = codes "HS256"; typ = codes "JWT" })))
    payload ← lift (
        or_fail external_failure (
          go.marshal_payload (record {
            subject = user_id;
            session_id = session_id;
            issued_at = unix now;
            expires_at = unix (now + config.access_token_ttl);
          })))
    let input = go.encode header ++ 0x2e ∷ go.encode payload
    pure (input ++ 0x2e ∷ go.encode (sign_jwt input))

  -- the checks of `VerifyAccessToken` up to the claims, on the parts of the token
  unfoldable pub verify_parts : List Text → Outcome AccessTokenPayload
  verify_parts (header_part ∷ payload_part ∷ signature_part ∷ []) =
      Common.◌>>=◌ (or_fail invalid_token (go.decode header_part)) λ header_json.
        Common.◌>>=◌ (or_fail invalid_token (go.unmarshal_header header_json)) λ header.
          Common.◌>>◌ (fail_if (not (is_jwt header)) invalid_token) (
            Common.◌>>=◌ (or_fail invalid_token (go.decode signature_part)) λ signature.
              Common.◌>>◌
                (fail_if (not (text_eq (sign_jwt (header_part ++ 0x2e ∷ payload_part)) signature))
                  invalid_token_signature)
                (Common.◌>>=◌ (or_fail invalid_token (go.decode payload_part)) λ payload_json.
                  Common.◌>>=◌ (or_fail invalid_token (go.unmarshal_payload payload_json))
                    λ p. Common.◌>>◌ (fail_if (misses_claims p) token_claims_missing) (ok p)))
  verify_parts _ = err invalid_token

  -- `VerifyAccessToken`
  unfoldable pub verify_access_token : Text → Action AccessTokenClaims
  verify_access_token token = do
    p ← lift (verify_parts (split_at 0x2e token))
    now ← clock_now env
    raise_if (leb p.expires_at (unix now)) token_expired
    pure (claims_of p)

  -- `VerifyAccessTokenIdentity`
  unfoldable pub verify_access_token_identity : Text → Action (Text × Text)
  verify_access_token_identity token = do
    claims ← verify_access_token token
    pure (claims.subject, claims.session_id)

  -- `HashRefreshToken`
  unfoldable pub hash_refresh_token : Text → Outcome Text
  hash_refresh_token token =
      Common.◌>>◌ (fail_if (is_empty (trim_space token)) refresh_token_empty) (ok (go.digest token))

  -- `HashOneTimeToken`
  unfoldable pub hash_one_time_token : Text → Outcome Text
  unfolding hash_refresh_token
  hash_one_time_token token = hash_refresh_token token

  -- `VerifyRefreshTokenHash`
  unfoldable pub verify_refresh_token_hash : Text → Text → Outcome Bool
  verify_refresh_token_hash token expected =
      Common.◌>>◌ (fail_if (is_empty (trim_space expected)) refresh_token_hash_empty)
        (Common.◌>>=◌ (hash_refresh_token token) λ computed. ok (text_eq computed expected))

  -- `rand.Read` into 32 bytes
  unfoldable pub read_random : Action Text
  read_random w = (or_fail external_failure (go.random w.calls), tick w)

  -- a random token, its hash and the time at which it expires
  unfoldable pub issue_random : ℕ → Action (Text × Text × ℕ)
  issue_random ttl = do
    raw_token ← read_random
    hash ← lift (hash_refresh_token (go.encode raw_token))
    now ← clock_now env
    pure (go.encode raw_token, hash, now + ttl)

  -- `IssueRefreshToken`
  unfoldable pub issue_refresh_token : Action (Text × Text × ℕ)
  issue_refresh_token = issue_random config.refresh_token_ttl

  -- `IssueOneTimeToken`
  unfoldable pub issue_one_time_token : ℕ → Action (Text × Text × ℕ)
  issue_one_time_token ttl = do
    raise_if (not (ltb 0 ttl)) invalid_one_time_token_ttl
    issue_random ttl

  -- the service, as the interface that internal/app/identity takes
  unfoldable pub token_issuer : TokenIssuer
  token_issuer = record {
    issue_access_token = issue_access_token;
    issue_refresh_token = issue_refresh_token;
    hash_refresh_token = hash_refresh_token;
    verify_access_token_identity = verify_access_token_identity;
    access_token_ttl = config.access_token_ttl;
    issue_one_time_token = issue_one_time_token;
    hash_one_time_token = hash_one_time_token;
  }
