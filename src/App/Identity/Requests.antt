-- ===== src/App/Identity/Requests.antt =====
-- internal/app/identity: the requests as they are called, and sequences of them. The services are
-- built from one environment, as internal/app/bootstrap does.
use moneo_backend.Common.{ℕ, ◌+◌, Text}
use moneo_backend.Domain.Identity.Credentials.{Platform}
use moneo_backend.Infra.Database.{Env, World, Action}
use moneo_backend.App.Services.Atomic.{only_done}
use moneo_backend.App.Identity.{
  register, login, refresh, logout, logout_all, logout_current, list_active_sessions,
  revoke_session, authenticate,
}
use moneo_backend.App.Identity.Interfaces.{
  PasswordHasher, TokenIssuer, Notifiers, RegisterInput, LoginInput,
}
use moneo_backend.App.Identity.PostMvp.{
  AuthPostMvpConfig, ResetPasswordInput, forgot_password, reset_password, send_verification_email,
  verify_email,
}

pub data IdentityRequest : Type 0 where
  registers : RegisterInput → IdentityRequest
  logs_in : LoginInput → IdentityRequest
  refreshes logs_out logs_out_all logs_out_current : Text → IdentityRequest
  lists_sessions authenticates : Text → IdentityRequest
  revokes_session : Text → Text → IdentityRequest
  forgets_password sends_verification verifies_email : Text → IdentityRequest
  resets_password : ResetPasswordInput → IdentityRequest

pub record Services : Type 0 where
  pub platform : Platform
  pub hasher : PasswordHasher
  pub tokens : TokenIssuer
  pub notifiers : Notifiers
  pub config : AuthPostMvpConfig

module _ (env : Env) (s : Services) where
  unfoldable pub answer : IdentityRequest → Action (Unit {0})
  answer (registers input) = only_done (register env s.platform s.hasher s.tokens input)
  answer (logs_in input) = only_done (login env s.platform s.hasher s.tokens input)
  answer (refreshes token) = only_done (refresh env s.tokens token)
  answer (logs_out token) = only_done (logout env s.tokens token)
  answer (logs_out_all token) = logout_all env s.tokens token
  answer (logs_out_current token) = logout_current env s.tokens token
  answer (lists_sessions user_id) = only_done (list_active_sessions env s.tokens user_id)
  answer (authenticates token) = only_done (authenticate env s.tokens token)
  answer (revokes_session user_id id) = revoke_session env s.tokens user_id id
  answer (forgets_password email) =
      forgot_password env s.platform s.hasher s.tokens s.notifiers s.config email
  answer (sends_verification user_id) =
      send_verification_email env s.platform s.hasher s.tokens s.notifiers s.config user_id
  answer (verifies_email token) = verify_email env s.tokens token
  answer (resets_password input) =
      reset_password env s.platform s.hasher s.tokens s.notifiers s.config input

  -- Requests one after the other, whatever each answers, and time that passes between them.
  pub data Requests (w : World) : World → Type 0 where
    nothing_yet : Requests w w
    and_then : {u : World} → Requests w u → (r : IdentityRequest) → Requests w (answer r u).1
    and_waits : {u : World} → Requests w u → (n : ℕ) → Requests w (record u { calls = u.calls + n })
