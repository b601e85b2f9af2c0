-- ===== src/App/Identity.antt =====
-- internal/app/identity/service.go, auth_flow.go and access_auth.go: registration, login, sessions
-- and access. What the services take as an interface is a record of actions here: the issuer of
-- tokens, which infra/security/token_service.go implements, the hasher of passwords and the
-- notifiers. `clock.Now()` and `time.Now()` are the same clock.
pub mod PostMvp
pub mod Interfaces
pub mod Requests
pub mod Moves
pub mod Sequences
pub mod Later
pub mod WellFormed
pub mod Access
pub mod Lockout
pub mod OneTime
pub mod Spent
pub mod RoundTrip
use moneo_backend.Common.{
  ℕ, ◌/◌, Bool, true, false, not, ◌||◌, Text, text_eq, trim_space, Option, none, some, List, [],
  ◌∷◌, ok, err, ltb, if◌then◌else◌,
}
use moneo_backend.Domain.Errors.{
  Error, Outcome, duplicate_email, email_already_registered, user_not_found, invalid_credentials,
  session_not_found, invalid_refresh_token, invalid_access_token,
}
use moneo_backend.Domain.Identity.{User, new_user, Session, new_session}
use moneo_backend.Domain.Identity.Credentials.{Platform, validate_registration, validate_login}
use moneo_backend.Infra.Database.{
  Env, Action, pure, raise, lift, ◌>>=◌, ◌>>◌, raise_if, map_error, clock_now, generate_id,
}
use moneo_backend.Infra.UserRepository
use moneo_backend.Infra.SessionRepository
use Interfaces.{PasswordHasher, TokenIssuer, AuthTokens, RegisterInput, LoginInput}

-- `if errors.Is(err, ErrDuplicateEmail) { return ErrEmailAlreadyRegistered }`, and the others
unfoldable pub duplicate_as_registered : Error → Error
duplicate_as_registered duplicate_email = email_already_registered
duplicate_as_registered e = e

unfoldable pub missing_user_as : Error → Error → Error
missing_user_as e' user_not_found = e'
missing_user_as e' e = e

unfoldable pub missing_session_as : Error → Error → Error
missing_session_as e' session_not_found = e'
missing_session_as e' e = e

-- `if err != nil { return e }`, for any error
unfoldable pub any_as : Error → Error → Error
any_as e' e = e'

-- `session.RevokedAt != nil || !session.ExpiresAt.After(now)`
unfoldable pub is_ended : ℕ → Session → Bool
is_ended now s =
    let expired = not (ltb now s.expires_at) in
    elim s.revoked_at [ none ↦ expired | some at ↦ true ]

pub record UserSessionView : Type 0 where
  pub id : Text
  pub user_agent : Option Text
  pub ip : Option Text
  pub device_name : Option Text
  pub created_at : ℕ
  pub last_used_at : Option ℕ
  pub expires_at : ℕ

unfoldable pub view_of : Session → UserSessionView
view_of s = record {
  id = s.id;
  user_agent = s.user_agent;
  ip = s.ip;
  device_name = s.device_name;
  created_at = s.created_at;
  last_used_at = s.last_used_at;
  expires_at = s.expires_at;
}

unfoldable pub views_of : List Session → List UserSessionView
views_of [] = []
views_of (s ∷ rest) = view_of s ∷ views_of rest

-- `session.RevokedAt != nil`
unfoldable pub is_revoked : Session → Bool
is_revoked s = elim s.revoked_at [ none ↦ false | some at ↦ true ]

-- `if errors.Is(err, ErrSessionNotFound) { return nil }`
missing_session_ignored : Outcome (Unit {0}) → Outcome (Unit {0})
missing_session_ignored (err session_not_found) = ok tt
missing_session_ignored r = r

unfoldable pub ignore_missing_session : Action (Unit {0}) → Action (Unit {0})
unfolding missing_session_ignored
ignore_missing_session m w = (missing_session_ignored (m w).0, (m w).1)

module _ (env : Env) (platform : Platform) (hasher : PasswordHasher) where
  -- `AuthService.Register`
  unfoldable pub register_user : RegisterInput → Action User
  register_user input = do
    normalized ←
        lift (validate_registration platform input.email input.password input.password_confirm)
    password_hash ← hasher.hash input.password
    id ← generate_id env
    now ← clock_now env
    user ← lift (new_user id (trim_space input.email) normalized password_hash now)
    map_error duplicate_as_registered (UserRepository.create env platform user)
    pure user

  -- `AuthService.Login`
  unfoldable pub login_user : LoginInput → Action User
  login_user input = do
    normalized ←
        map_error (any_as invalid_credentials)
          (lift (validate_login platform input.email input.password))
    user ←
        map_error (missing_user_as invalid_credentials)
          (UserRepository.find_by_normalized_email env normalized)
    verified ←
        map_error (any_as invalid_credentials)
          (lift (hasher.verify input.password user.password_hash))
    raise_if (not verified) invalid_credentials
    pure user

module _ (env : Env) (tokens : TokenIssuer) where
  -- `createSessionAndIssueTokens`
  unfoldable pub create_session_and_issue_tokens : User → Action AuthTokens
  create_session_and_issue_tokens user = do
    (refresh_token, hash, expires_at) ← tokens.issue_refresh_token
    now ← clock_now env
    id ← generate_id env
    session ← lift (new_session id user.id hash now expires_at)
    SessionRepository.create env session
    access_token ← tokens.issue_access_token user.id session.id
    pure (record {
      access_token = access_token;
      refresh_token = refresh_token;
      expires_in = tokens.access_token_ttl / 1000000;
    })

  -- `findActiveSessionByRefreshToken`
  unfoldable pub find_active_session_by_refresh_token : Text → Action Session
  find_active_session_by_refresh_token refresh_token = do
    hash ← map_error (any_as invalid_refresh_token) (lift (tokens.hash_refresh_token refresh_token))
    session ←
        map_error (missing_session_as invalid_refresh_token)
          (SessionRepository.find_by_refresh_token_hash env hash)
    now ← clock_now env
    raise_if (is_ended now session) invalid_refresh_token
    pure session

  -- `Refresh`, which is `refreshByToken`
  unfoldable pub refresh : Text → Action AuthTokens
  refresh refresh_token = do
    session ← find_active_session_by_refresh_token refresh_token
    now ← clock_now env
    map_error (missing_session_as invalid_refresh_token)
        (SessionRepository.touch_last_used_at env session.id now)
    access_token ← tokens.issue_access_token session.user_id session.id
    pure (record {
      access_token = access_token;
      refresh_token = [];
      expires_in = tokens.access_token_ttl / 1000000;
    })

  -- `Logout`, which is `logoutByRefreshToken`
  unfoldable pub logout : Text → Action (Unit {0})
  logout refresh_token = do
    session ← find_active_session_by_refresh_token refresh_token
    now ← clock_now env
    map_error (missing_session_as invalid_refresh_token)
        (SessionRepository.revoke_by_id env session.id now)

  -- `LogoutAll`
  unfoldable pub logout_all : Text → Action (Unit {0})
  logout_all access_token = do
    (user_id, session_id) ←
        map_error (any_as invalid_access_token) (tokens.verify_access_token_identity access_token)
    now ← clock_now env
    SessionRepository.revoke_all_by_user_id env user_id now

  -- `LogoutCurrent`
  unfoldable pub logout_current : Text → Action (Unit {0})
  logout_current access_token = do
    (user_id, session_id) ←
        map_error (any_as invalid_access_token) (tokens.verify_access_token_identity access_token)
    now ← clock_now env
    ignore_missing_session (SessionRepository.revoke_by_id env session_id now)

  -- `ListActiveSessions`
  unfoldable pub list_active_sessions : Text → Action (List UserSessionView)
  list_active_sessions user_id = do
    now ← clock_now env
    sessions ← SessionRepository.list_active_by_user_id env user_id now
    pure (views_of sessions)

  -- `RevokeSession`
  unfoldable pub revoke_session : Text → Text → Action (Unit {0})
  revoke_session user_id session_id = do
    session ← SessionRepository.find_by_id env session_id
    raise_if (not (text_eq session.user_id user_id)) session_not_found
    now ← clock_now env
    raise_if (is_ended now session) session_not_found
    SessionRepository.revoke_by_id env session_id now

  -- `AccessAuthService.Authenticate`
  unfoldable pub authenticate : Text → Action (User × Session)
  authenticate access_token = do
    (user_id, session_id) ←
        map_error (any_as invalid_access_token) (tokens.verify_access_token_identity access_token)
    user ← map_error (missing_user_as invalid_access_token) (UserRepository.find_by_id env user_id)
    session ←
        map_error (missing_session_as invalid_access_token)
          (SessionRepository.find_by_id env session_id)
    raise_if (not (text_eq session.user_id user.id)) invalid_access_token
    raise_if (is_revoked session) invalid_access_token
    now ← clock_now env
    raise_if (not (ltb now session.expires_at)) invalid_access_token
    pure (user, session)

module _ (env : Env) (platform : Platform) (hasher : PasswordHasher) (tokens : TokenIssuer) where
  -- `AuthFlowService.Register` and `Login`
  unfoldable pub register : RegisterInput → Action AuthTokens
  register input = do
    user ← register_user env platform hasher input
    create_session_and_issue_tokens env tokens user

  unfoldable pub login : LoginInput → Action AuthTokens
  login input = do
    user ← login_user env platform hasher input
    create_session_and_issue_tokens env tokens user
