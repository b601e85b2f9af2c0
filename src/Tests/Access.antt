-- ===== src/Tests/Access.antt =====
-- The theorems about users, sessions and tokens at concrete inputs.
use moneo_backend.Common.{
  ℕ, ◌<◌, ◌≤◌, ◌≡◌, ◌≢◌, refl, true, Text, codes, text_eq, trim_space, is_empty, some, [], ◌∷◌,
  ◌++◌, ok, arith,
}
use moneo_backend.Domain.Identity.{User}
use moneo_backend.Domain.Identity.Credentials.{split_at}
use moneo_backend.Infra.Table.{lookup, insert, HasKeys}
use moneo_backend.Infra.Table.Unique.{IsUnique}
use moneo_backend.Infra.Database.{UserRow, SessionRow, tick}
use moneo_backend.Infra.UserRepository
use moneo_backend.Infra.UserRepository.{generated_email}
use moneo_backend.Infra.SessionRepository
use moneo_backend.Infra.SessionRepository.{is_live, revoked}
use moneo_backend.Infra.Security
use moneo_backend.Infra.Security.{
  AccessTokenPayload, token_issuer, sign_jwt, unix, verify_access_token_identity,
}
use moneo_backend.Infra.Security.Tokens.{verify-issue_access_token, verify_access_token-signed}
use moneo_backend.App.Identity.{login_user}
use moneo_backend.App.Identity.PostMvp.{reset_password}
use moneo_backend.App.Identity.WellFormed.{IsWellFormed, IsOwned}
use moneo_backend.App.Identity.Access.{authenticate_live}
use moneo_backend.App.Identity.Lockout.{logout_all-locks_out}
use moneo_backend.App.Identity.OneTime.{IsReset, reset_password-IsReset}
use moneo_backend.App.Identity.Spent.{
  Requests-IsWellFormed, reset_password-locks_out, reset_password-only_once,
}
use moneo_backend.App.Identity.RoundTrip.{register-login, revoke_session-eq-ok}
use moneo_backend.Tests.Identities.{
  env, env-IsClock, go, go-IsGoLibrary, config, platform, hasher, services, services-AreServices,
  start, anna,
}
use moneo_backend.Tests.Sessions.{
  anna_user, after_register, first_tokens, ended_session, after_logout, second_session, after_login,
  second_tokens, reset_token, after_forgot, new_password, reset_session, after_reset, third_session,
  after_third, third_tokens, runs, logged_in, logged_in_again, asked,
}

-- the user after the reset
abbrev changed_anna : User
changed_anna = record anna_user { password_hash = codes "hanother456"; updated_at = 1018000000 }

start-IsWellFormed : IsWellFormed start.db
unfolding HasKeys IsUnique IsOwned lookup
start-IsWellFormed = record {
  user_keys = tt;
  session_keys = tt;
  token_keys = tt;
  emails = λ i j r s h k. cc;
  hashes = λ i j r s h k. cc;
  token_hashes = λ i j r s h k. cc;
  session_owners = λ id r h. cc;
  token_owners = λ id r h. cc;
}

Requests-IsWellFormed_example : IsWellFormed after_forgot.db
Requests-IsWellFormed_example =
    Requests-IsWellFormed env services start after_forgot services-AreServices asked
      start-IsWellFormed

-- the tables of the reset below
after_forgot-IsWellFormed : IsWellFormed after_forgot.db
after_forgot-IsWellFormed =
    Requests-IsWellFormed env services start after_forgot services-AreServices asked
      start-IsWellFormed

logout_all-locks_out_example : codes "q" ≢ codes "g"
unfolding lookup text_eq SessionRepository.session_of
logout_all-locks_out_example =
    logout_all-locks_out env services first_tokens.access_token second_tokens.access_token
      (codes "a") (codes "g") (codes "g") ended_session after_register after_logout after_login
      (record after_login { calls = 23 }) anna_user
      (SessionRepository.session_of (codes "q") second_session) services-AreServices env-IsClock
      runs.7 runs.1 refl refl logged_in runs.3

reset_password-locks_out_example : ◌≢◌ {A = Text} (124 ∷ []) (codes "g")
unfolding lookup text_eq SessionRepository.session_of token_issuer Security.hash_one_time_token
    Security.hash_refresh_token trim_space is_empty
reset_password-locks_out_example =
    reset_password-locks_out env services new_password third_tokens.access_token (1010 ∷ [])
      (codes "n") (codes "g") reset_token reset_session after_forgot after_reset after_third
      (record after_third { calls = 34 }) changed_anna
      (SessionRepository.session_of (124 ∷ []) third_session) services-AreServices env-IsClock
      after_forgot-IsWellFormed refl refl refl runs.5 refl refl logged_in_again runs.9

reset_password-only_once_example :
    reset_password env platform hasher services.tokens services.notifiers services.config
      new_password after_third
    ≢ (ok tt, after_third)
reset_password-only_once_example =
    reset_password-only_once env services new_password new_password after_forgot after_reset
      after_third after_third services-AreServices env-IsClock after_forgot-IsWellFormed refl runs.5
      logged_in_again

reset_password-IsReset_example :
    (hash password_hash : Text) × (services.tokens.hash_one_time_token new_password.token ≡ ok hash)
    × (hasher.verify new_password.password password_hash ≡ ok true)
    × IsReset env hash password_hash after_forgot after_reset
reset_password-IsReset_example =
    reset_password-IsReset env services new_password after_forgot after_reset services-AreServices
      env-IsClock after_forgot-IsWellFormed runs.5

authenticate_live_example :
    (owner : UserRow) × (row : SessionRow) × (n : ℕ)
    × ((services.tokens.verify_access_token_identity second_tokens.access_token after_login).0
        ≡ ok (anna_user.id, (SessionRepository.session_of (codes "q") second_session).id))
    × (lookup anna_user.id after_login.db.users ≡ some owner)
    × (lookup (SessionRepository.session_of (codes "q") second_session).id after_login.db.sessions
        ≡ some row)
    × (row.user_id ≡ anna_user.id)
    × (is_live (env.now n) row ≡ true)
    × (after_login.calls ≤ n)
    × ((record after_login { calls = 23 }).db ≡ after_login.db)
authenticate_live_example =
    authenticate_live env services.tokens second_tokens.access_token after_login
      services-AreServices.tokens runs.3

revoke_session-eq-ok_example :
    (row : SessionRow) × (n : ℕ) × (lookup (codes "q") after_login.db.sessions ≡ some row)
    × (row.user_id ≡ codes "a")
    × (is_live (env.now n) row ≡ true)
    × (after_login.calls ≤ n)
    × (record after_login.db {
      sessions =
          (codes "g", ended_session)
          ∷ (codes "q", record second_session { revoked_at = some 1020000000 })
          ∷ [];
    }
        ≡ record after_login.db {
          sessions = insert (codes "q") (revoked (env.now n) row) after_login.db.sessions;
        })
revoke_session-eq-ok_example =
    revoke_session-eq-ok env services.tokens (codes "a") (codes "q") after_login _ runs.8

register-login_example :
    (found : User) × (login_user env platform hasher
        (record { email = anna.email; password = anna.password })
        after_register
      ≡ (ok found, tick after_register))
    × (found.id ≡ anna_user.id)
unfolding generated_email UserRepository.trim_left_spaces UserRepository.trim_right_spaces
    trim_space
register-login_example =
    register-login env platform hasher anna start
      (record after_register {
        db = record start.db { users = after_register.db.users };
        calls = 3;
      })
      after_register anna_user services-AreServices.hasher refl runs.10 refl refl

verify-issue_access_token_example :
    verify_access_token_identity env go config first_tokens.access_token
      (record start { calls = 9 })
    ≡ (ok (codes "a", codes "g"), record start { calls = 10 })
unfolding is_empty unix
verify-issue_access_token_example =
    verify-issue_access_token env go config (codes "a") (codes "g") first_tokens.access_token
      (record start { calls = 8 }) (record start { calls = 9 }) (record start { calls = 9 })
      go-IsGoLibrary refl refl (omega arith) (omega arith) runs.11

verify_access_token-signed_example :
    (header payload signature json : Text) × (p : AccessTokenPayload) × (split_at 0x2e
        first_tokens.access_token
      ≡ header ∷ payload ∷ signature ∷ [])
    × (go.decode signature ≡ some (sign_jwt env go config (header ++ 0x2e ∷ payload)))
    × (go.decode payload ≡ some json)
    × (go.unmarshal_payload json ≡ some p)
    × (p.subject ≡ codes "a")
    × (p.session_id ≡ codes "g")
    × (unix (env.now 9) < p.expires_at)
unfolding is_empty unix
verify_access_token-signed_example =
    verify_access_token-signed env go config first_tokens.access_token (record start { calls = 9 })
      runs.12
