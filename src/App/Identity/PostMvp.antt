-- ===== src/App/Identity/PostMvp.antt =====
-- internal/app/identity/post_mvp.go: the reset of a password and the verification of an email. The
-- notifiers and the manager of transactions are there: the constructor puts one that does nothing
-- in the place of a missing one.
use moneo_backend.Common.{
  ℕ, Bool, true, false, not, ◌||◌, Text, text_eq, trim_space, is_empty, ok, err, ltb, if◌then◌else◌,
  fail_if,
}
use moneo_backend.Common
use moneo_backend.Domain.Errors.{
  Error, Outcome, user_not_found, one_time_token_not_found, password_confirm_mismatch,
  invalid_access_token, invalid_password_reset_token, invalid_email_verification_token,
  invalid_password_reset_token_ttl, invalid_verification_token_ttl,
}
use moneo_backend.Domain.Identity.{
  User, OneTimeToken, OneTimeTokenPurpose, password_reset, email_verification, new_one_time_token,
}
use moneo_backend.Domain.Identity.Credentials.{Platform, normalize_email, validate_password}
use moneo_backend.Infra.Database.{
  Env, Action, pure, raise, lift, ◌>>=◌, ◌>>◌, raise_if, map_error, clock_now, generate_id,
  within_tx,
}
use moneo_backend.Infra.UserRepository
use moneo_backend.Infra.SessionRepository
use moneo_backend.Infra.OneTimeTokenRepository
use moneo_backend.App.Identity.{missing_user_as, any_as}
use moneo_backend.App.Identity.Interfaces.{PasswordHasher, TokenIssuer, Notifiers}

-- `AuthPostMVPConfig`, in microseconds
pub record AuthPostMvpConfig : Type 0 where
  pub password_reset_token_ttl : ℕ
  pub email_verification_token_ttl : ℕ

-- `DefaultAuthPostMVPConfig`
unfoldable pub default_auth_post_mvp_config : AuthPostMvpConfig
default_auth_post_mvp_config = record {
  password_reset_token_ttl = 1800000000;
  email_verification_token_ttl = 86400000000;
}

-- the checks of `NewAuthPostMVPService`: a reset token lives for 15 to 60 minutes
unfoldable pub check_config : AuthPostMvpConfig → Outcome (Unit {0})
check_config config =
    Common.◌>>◌
      (fail_if
        (ltb config.password_reset_token_ttl 900000000
          || ltb 3600000000 config.password_reset_token_ttl)
        invalid_password_reset_token_ttl)
      (fail_if (not (ltb 0 config.email_verification_token_ttl)) invalid_verification_token_ttl)

pub record ResetPasswordInput : Type 0 where
  pub token : Text
  pub password : Text
  pub password_confirm : Text

unfoldable pub missing_token_as : Error → Error → Error
missing_token_as e' one_time_token_not_found = e'
missing_token_as e' e = e

unfoldable pub find_or_stop : Outcome User → (User → Action (Unit {0})) → Action (Unit {0})
find_or_stop (ok user) f = f user
find_or_stop (err user_not_found) f = pure tt
find_or_stop (err e) f = raise e

-- `if errors.Is(err, ErrUserNotFound) { return nil }`, and the rest for a user that is found
unfoldable pub if_found : Action User → (User → Action (Unit {0})) → Action (Unit {0})
unfolding find_or_stop
if_found m f w = find_or_stop (m w).0 f (m w).1

module _ (env : Env) (tokens : TokenIssuer) where
  -- `createAndSendToken`
  unfoldable pub create_and_send_token :
      User → OneTimeTokenPurpose → ℕ → (User → Text → Action (Unit {0})) → Action (Unit {0})
  create_and_send_token user purpose ttl send = do
    (raw_token, hash, expires_at) ← tokens.issue_one_time_token ttl
    now ← clock_now env
    id ← generate_id env
    token ← lift (new_one_time_token id user.id purpose hash now expires_at)
    OneTimeTokenRepository.create env token
    send user raw_token

  -- `findActiveOneTimeToken`
  unfoldable pub find_active_one_time_token :
      OneTimeTokenPurpose → Text → Error → Action OneTimeToken
  find_active_one_time_token purpose raw_token refused = do
    hash ← map_error (any_as refused) (lift (tokens.hash_one_time_token raw_token))
    now ← clock_now env
    map_error (missing_token_as refused)
        (OneTimeTokenRepository.find_active_by_hash env purpose hash now)

  -- the function that `ResetPassword` hands to `WithinTx`
  unfoldable pub reset_in_tx : Text → Text → Action (Unit {0})
  reset_in_tx raw_token password_hash = do
    token ← find_active_one_time_token password_reset raw_token invalid_password_reset_token
    now ← clock_now env
    map_error (missing_user_as invalid_password_reset_token)
        (UserRepository.update_password env token.user_id password_hash now)
    SessionRepository.revoke_all_by_user_id env token.user_id now
    map_error (missing_token_as invalid_password_reset_token)
        (OneTimeTokenRepository.mark_used env token.id now)

  -- the function that `VerifyEmail` hands to `WithinTx`
  unfoldable pub verify_in_tx : Text → Action (Unit {0})
  verify_in_tx raw_token = do
    token ← find_active_one_time_token email_verification raw_token invalid_email_verification_token
    now ← clock_now env
    map_error (missing_user_as invalid_email_verification_token)
        (UserRepository.mark_email_verified env token.user_id now)
    map_error (missing_token_as invalid_email_verification_token)
        (OneTimeTokenRepository.mark_used env token.id now)

  -- `VerifyEmail`
  unfoldable pub verify_email : Text → Action (Unit {0})
  verify_email raw_token = do
    raise_if (is_empty (trim_space raw_token)) invalid_email_verification_token
    within_tx env (verify_in_tx raw_token)

module _ (env : Env) (platform : Platform) (hasher : PasswordHasher) (tokens : TokenIssuer)
    (notifiers : Notifiers) (config : AuthPostMvpConfig) where
  -- `ForgotPassword`
  unfoldable pub forgot_password : Text → Action (Unit {0})
  forgot_password email = do
    normalized ← lift (normalize_email platform email)
    if_found (UserRepository.find_by_normalized_email env normalized) λ user.
        create_and_send_token env tokens user password_reset config.password_reset_token_ttl
          notifiers.send_password_reset

  -- `ResetPassword`
  unfoldable pub reset_password : ResetPasswordInput → Action (Unit {0})
  reset_password input = do
    raise_if (is_empty (trim_space input.token)) invalid_password_reset_token
    lift (validate_password platform input.password)
    raise_if (not (text_eq input.password input.password_confirm)) password_confirm_mismatch
    password_hash ← hasher.hash input.password
    within_tx env (reset_in_tx env tokens input.token password_hash)

  unfoldable pub send_unless_verified : User → Action (Unit {0})
  send_unless_verified user =
      if user.email_verified
      then pure tt
      else create_and_send_token env tokens user email_verification
          config.email_verification_token_ttl notifiers.send_email_verification

  -- `SendVerificationEmail`
  unfoldable pub send_verification_email : Text → Action (Unit {0})
  send_verification_email user_id = do
    user ← map_error (missing_user_as invalid_access_token) (UserRepository.find_by_id env user_id)
    send_unless_verified user
