-- ===== src/App/Identity/Interfaces.antt =====
-- What internal/app/identity takes as interfaces, its inputs, and the laws that its clients rely on.
use moneo_backend.Common.{ℕ, ◌≤◌, ◌≡◌, Bool, true, Text, ok}
use moneo_backend.Domain.Errors.{Outcome}
use moneo_backend.Domain.Identity.{User}
use moneo_backend.Infra.Database.{Env, World, Action}
use moneo_backend.Infra.Database.Clean.{Same}

pub record RegisterInput : Type 0 where
  pub email : Text
  pub password : Text
  pub password_confirm : Text

pub record LoginInput : Type 0 where
  pub email : Text
  pub password : Text

pub record AuthTokens : Type 0 where
  pub access_token : Text
  pub refresh_token : Text
  pub expires_in : ℕ

-- `PasswordHasher`; `Hash` draws a random salt
pub record PasswordHasher : Type 0 where
  pub hash : Text → Action Text
  pub verify : Text → Text → Outcome Bool

-- `TokenIssuer` and `OneTimeTokenIssuer`; a token that is issued comes with its hash and the time at
-- which it expires
pub record TokenIssuer : Type 0 where
  pub issue_access_token : Text → Text → Action Text
  pub issue_refresh_token : Action (Text × Text × ℕ)
  pub hash_refresh_token : Text → Outcome Text
  pub verify_access_token_identity : Text → Action (Text × Text)
  pub access_token_ttl : ℕ
  pub issue_one_time_token : ℕ → Action (Text × Text × ℕ)
  pub hash_one_time_token : Text → Outcome Text

-- `PasswordResetNotifier` and `EmailVerificationNotifier`
pub record Notifiers : Type 0 where
  pub send_password_reset : User → Text → Action (Unit {0})
  pub send_email_verification : User → Text → Action (Unit {0})

-- It changes no table, and opens and ends no transaction.
unfoldable pub IsQuiet : {A : Type 0} → Action A → Type 0
IsQuiet m = (w : World) → Same w (m w).1 × (w.calls ≤ (m w).1.calls)

pub record IsPasswordHasher (hasher : PasswordHasher) : Type 0 where
  pub hash-IsQuiet : (password : Text) → IsQuiet (hasher.hash password)
  -- A password is verified against a hash that was made of it.
  pub verify-hash :
      (password hash : Text) (w w' : World)
      → hasher.hash password w ≡ (ok hash, w')
      → hasher.verify password hash ≡ ok true

pub record IsTokenIssuer (tokens : TokenIssuer) : Type 0 where
  pub issue_access_token-IsQuiet :
      (user_id session_id : Text) → IsQuiet (tokens.issue_access_token user_id session_id)
  pub issue_refresh_token-IsQuiet : IsQuiet tokens.issue_refresh_token
  pub verify_access_token_identity-IsQuiet :
      (access_token : Text) → IsQuiet (tokens.verify_access_token_identity access_token)
  pub issue_one_time_token-IsQuiet : (ttl : ℕ) → IsQuiet (tokens.issue_one_time_token ttl)

pub record IsNotifiers (notifiers : Notifiers) : Type 0 where
  pub send_password_reset-IsQuiet :
      (user : User) (token : Text) → IsQuiet (notifiers.send_password_reset user token)
  pub send_email_verification-IsQuiet :
      (user : User) (token : Text) → IsQuiet (notifiers.send_email_verification user token)

-- The clock does not go back.
unfoldable pub IsClock : Env → Type 0
IsClock env = (m n : ℕ) → m ≤ n → env.now m ≤ env.now n
