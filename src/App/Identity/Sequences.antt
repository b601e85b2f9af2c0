-- ===== src/App/Identity/Sequences.antt =====
-- A relation between worlds that every statement on users, sessions and one-time tokens keeps is
-- kept by every request, and by sequences of them.
use moneo_backend.Common.{ℕ, ◌≡◌, refl, Bool, true, false, Text, none, ok, arith}
use moneo_backend.Domain.Identity.{
  User, Session, OneTimeTokenPurpose, new_session, new_session-eq-ok,
}
use moneo_backend.Domain.Errors.{Error}
use moneo_backend.Infra.Database.{Env, World, Action, map_error}
use moneo_backend.Infra.Database.Histories.{
  IsHistory, Moves, >>=-Moves, >>-Moves, lift-Moves, lift-then-Moves, pure-Moves, raise_if-Moves,
  map_error-Moves, clock_now-Moves, generate_id-Moves, execute-Moves_query, within_tx-Moves,
}
use moneo_backend.Infra.SessionRepository
use moneo_backend.App.Services.Atomic.{only_done}
use moneo_backend.App.Identity.{
  register_user, login_user, register, login, create_session_and_issue_tokens, refresh, logout,
  find_active_session_by_refresh_token, logout_all, logout_current, list_active_sessions,
  revoke_session, authenticate,
}
use moneo_backend.App.Identity.Interfaces.{
  IsQuiet, IsPasswordHasher, IsTokenIssuer, IsNotifiers, RegisterInput, LoginInput,
}
use moneo_backend.App.Identity.PostMvp.{
  ResetPasswordInput, forgot_password, reset_password, reset_in_tx, send_verification_email,
  verify_email, verify_in_tx, create_and_send_token, find_active_one_time_token,
  send_unless_verified,
}
use moneo_backend.App.Identity.Requests.{
  IdentityRequest, Services, answer, Requests, registers, logs_in, refreshes, logs_out,
  logs_out_all, logs_out_current, lists_sessions, authenticates, revokes_session, forgets_password,
  sends_verification, verifies_email, resets_password, nothing_yet, and_then, and_waits,
}
use moneo_backend.App.Identity.Moves.{
  IsAuthHistory, quiet-Moves, user_by_email-Moves, user_by_id-Moves, session_by_hash-Moves,
  session_by_id-Moves, revoke_by_id-Moves, revoke_all-Moves, mark_used-Moves, token_by_hash-Moves,
  ignore_missing_session-Moves, if_found-Moves, insert_session-Moves, insert_token-Moves,
  insert_user-Moves, update_password-Moves, mark_email_verified-Moves, touch-Moves,
}

-- The laws of the services' interfaces.
pub record AreServices (s : Services) : Type 0 where
  pub hasher : IsPasswordHasher s.hasher
  pub tokens : IsTokenIssuer s.tokens
  pub notifiers : IsNotifiers s.notifiers

module _ {R : World → World → Type 0} (auth : IsAuthHistory R) (env : Env) (s : Services)
    (laws : AreServices s) where
  abbrev h : IsHistory R
  h = auth.history

  only_done-Moves : {A : Type 0} (m : Action A) → Moves R m → Moves R (only_done m)
  unfolding Moves only_done
  only_done-Moves m k w = k w

  register_user-Moves :
      (input : RegisterInput) → Moves R (register_user env s.platform s.hasher input)
  unfolding register_user
  register_user-Moves input = >>=-Moves h _ _ (lift-Moves h _) λ normalized.
      >>=-Moves h _ _ (quiet-Moves auth env _ (laws.hasher.hash-IsQuiet input.password)) λ hash.
        >>=-Moves h _ _ (generate_id-Moves h env) λ id.
          >>=-Moves h _ _ (clock_now-Moves h env) λ now. >>=-Moves h _ _ (lift-Moves h _) λ user.
            >>-Moves h _ _ (map_error-Moves h _ _ (insert_user-Moves auth env s.platform user))
              (pure-Moves h _)

  login_user-Moves : (input : LoginInput) → Moves R (login_user env s.platform s.hasher input)
  unfolding login_user
  login_user-Moves input = >>=-Moves h _ _ (map_error-Moves h _ _ (lift-Moves h _)) λ normalized.
      >>=-Moves h _ _ (map_error-Moves h _ _ (user_by_email-Moves auth env normalized)) λ user.
        >>=-Moves h _ _ (map_error-Moves h _ _ (lift-Moves h _))
          λ verified. >>-Moves h _ _ (raise_if-Moves h _ _) (pure-Moves h _)

  is_new :
      (id user_id hash : Text) (now expires_at : ℕ) {session : Session}
      → new_session id user_id hash now expires_at ≡ ok session
      → session.revoked_at ≡ none
  is_new id user_id hash now expires_at made =
      let (i, u, k, x, n, l) = new_session-eq-ok id user_id hash now expires_at made in n

  create_session-Moves : (user : User) → Moves R (create_session_and_issue_tokens env s.tokens user)
  unfolding create_session_and_issue_tokens
  create_session-Moves user =
      >>=-Moves h _ _ (quiet-Moves auth env _ laws.tokens.issue_refresh_token-IsQuiet)
        λ (refresh_token, hash, expires_at). >>=-Moves h _ _ (clock_now-Moves h env) λ now.
          >>=-Moves h _ _ (generate_id-Moves h env) λ id. lift-then-Moves h _ _ λ session made.
            >>-Moves h _ _ (insert_session-Moves auth env session (is_new _ _ _ _ _ made)) (
              >>=-Moves h _ _
                (quiet-Moves auth env _ (laws.tokens.issue_access_token-IsQuiet user.id session.id))
                λ access_token. pure-Moves h _)

  find_active-Moves :
      (token : Text) → Moves R (find_active_session_by_refresh_token env s.tokens token)
  unfolding find_active_session_by_refresh_token
  find_active-Moves token = >>=-Moves h _ _ (map_error-Moves h _ _ (lift-Moves h _)) λ hash.
      >>=-Moves h _ _ (map_error-Moves h _ _ (session_by_hash-Moves auth env hash)) λ session.
        >>=-Moves h _ _ (clock_now-Moves h env)
          λ now. >>-Moves h _ _ (raise_if-Moves h _ _) (pure-Moves h _)

  refresh-Moves : (token : Text) → Moves R (refresh env s.tokens token)
  unfolding refresh
  refresh-Moves token = >>=-Moves h _ _ (find_active-Moves token) λ session.
      >>=-Moves h _ _ (clock_now-Moves h env) λ now.
        >>-Moves h _ _ (map_error-Moves h _ _ (touch-Moves auth env session.id now)) (
          >>=-Moves h _ _
            (quiet-Moves auth env _
              (laws.tokens.issue_access_token-IsQuiet session.user_id session.id))
            λ access_token. pure-Moves h _)

  logout-Moves : (token : Text) → Moves R (logout env s.tokens token)
  unfolding logout
  logout-Moves token = >>=-Moves h _ _ (find_active-Moves token) λ session.
      >>=-Moves h _ _ (clock_now-Moves h env)
        λ now. map_error-Moves h _ _ (revoke_by_id-Moves auth env session.id now)

  verified-Moves :
      (f : Error → Error) (token : Text)
      → Moves R (map_error f (s.tokens.verify_access_token_identity token))
  verified-Moves f token =
      map_error-Moves h f _
        (quiet-Moves auth env _ (laws.tokens.verify_access_token_identity-IsQuiet token))

  logout_all-Moves : (token : Text) → Moves R (logout_all env s.tokens token)
  unfolding logout_all
  logout_all-Moves token = >>=-Moves h _ _ (verified-Moves _ token) λ (user_id, session_id).
      >>=-Moves h _ _ (clock_now-Moves h env) λ now. revoke_all-Moves auth env user_id now

  logout_current-Moves : (token : Text) → Moves R (logout_current env s.tokens token)
  unfolding logout_current
  logout_current-Moves token = >>=-Moves h _ _ (verified-Moves _ token) λ (user_id, session_id).
      >>=-Moves h _ _ (clock_now-Moves h env)
        λ now. ignore_missing_session-Moves auth env _ (revoke_by_id-Moves auth env session_id now)

  list-Moves : (user_id : Text) → Moves R (list_active_sessions env s.tokens user_id)
  unfolding list_active_sessions SessionRepository.list_active_by_user_id
  list-Moves user_id =
      >>=-Moves h _ _ (clock_now-Moves h env)
        λ now. >>=-Moves h _ _ (execute-Moves_query h env _ _) λ sessions. pure-Moves h _

  revoke_session-Moves : (user_id id : Text) → Moves R (revoke_session env s.tokens user_id id)
  unfolding revoke_session
  revoke_session-Moves user_id id = >>=-Moves h _ _ (session_by_id-Moves auth env id) λ session.
      >>-Moves h _ _ (raise_if-Moves h _ _) (
        >>=-Moves h _ _ (clock_now-Moves h env)
          λ now. >>-Moves h _ _ (raise_if-Moves h _ _) (revoke_by_id-Moves auth env id now))

  authenticate-Moves : (token : Text) → Moves R (authenticate env s.tokens token)
  unfolding authenticate
  authenticate-Moves token = >>=-Moves h _ _ (verified-Moves _ token) λ (user_id, session_id).
      >>=-Moves h _ _ (map_error-Moves h _ _ (user_by_id-Moves auth env user_id)) λ user.
        >>=-Moves h _ _ (map_error-Moves h _ _ (session_by_id-Moves auth env session_id)) λ session.
          >>-Moves h _ _ (raise_if-Moves h _ _) (
            >>-Moves h _ _ (raise_if-Moves h _ _) (
              >>=-Moves h _ _ (clock_now-Moves h env)
                λ now. >>-Moves h _ _ (raise_if-Moves h _ _) (pure-Moves h _)))

  create_and_send-Moves :
      (user : User) (purpose : OneTimeTokenPurpose) (ttl : ℕ)
      (send : User → Text → Action (Unit {0}))
      → ((user : User) (token : Text) → IsQuiet (send user token))
      → Moves R (create_and_send_token env s.tokens user purpose ttl send)
  unfolding create_and_send_token
  create_and_send-Moves user purpose ttl send q =
      >>=-Moves h _ _ (quiet-Moves auth env _ (laws.tokens.issue_one_time_token-IsQuiet ttl))
        λ (token, hash, expires_at). >>=-Moves h _ _ (clock_now-Moves h env) λ now.
          >>=-Moves h _ _ (generate_id-Moves h env) λ id. >>=-Moves h _ _ (lift-Moves h _) λ made.
            >>-Moves h _ _ (insert_token-Moves auth env made) (quiet-Moves auth env _ (q user _))

  find_token-Moves :
      (purpose : OneTimeTokenPurpose) (token : Text) (e : Error)
      → Moves R (find_active_one_time_token env s.tokens purpose token e)
  unfolding find_active_one_time_token
  find_token-Moves purpose token e =
      >>=-Moves h _ _ (map_error-Moves h _ _ (lift-Moves h _)) λ hash.
        >>=-Moves h _ _ (clock_now-Moves h env)
          λ now. map_error-Moves h _ _ (token_by_hash-Moves auth env purpose hash now)

  reset_in_tx-Moves : (token hash : Text) → Moves R (reset_in_tx env s.tokens token hash)
  unfolding reset_in_tx
  reset_in_tx-Moves token hash = >>=-Moves h _ _ (find_token-Moves _ token _) λ found.
      >>=-Moves h _ _ (clock_now-Moves h env) λ now.
        >>-Moves h _ _
          (map_error-Moves h _ _ (update_password-Moves auth env found.user_id hash now))
          (>>-Moves h _ _ (revoke_all-Moves auth env found.user_id now)
            (map_error-Moves h _ _ (mark_used-Moves auth env found.id now)))

  verify_in_tx-Moves : (token : Text) → Moves R (verify_in_tx env s.tokens token)
  unfolding verify_in_tx
  verify_in_tx-Moves token = >>=-Moves h _ _ (find_token-Moves _ token _) λ found.
      >>=-Moves h _ _ (clock_now-Moves h env) λ now.
        >>-Moves h _ _
          (map_error-Moves h _ _ (mark_email_verified-Moves auth env found.user_id now))
          (map_error-Moves h _ _ (mark_used-Moves auth env found.id now))

  reset_password-Moves :
      (input : ResetPasswordInput)
      → Moves R (reset_password env s.platform s.hasher s.tokens s.notifiers s.config input)
  unfolding reset_password
  reset_password-Moves input = >>-Moves h _ _ (raise_if-Moves h _ _) (
      >>-Moves h _ _ (lift-Moves h _) (
        >>-Moves h _ _ (raise_if-Moves h _ _) (
          >>=-Moves h _ _ (quiet-Moves auth env _ (laws.hasher.hash-IsQuiet input.password))
            λ hash. within_tx-Moves h env _ (reset_in_tx-Moves input.token hash))))

  verify_email-Moves : (token : Text) → Moves R (verify_email env s.tokens token)
  unfolding verify_email
  verify_email-Moves token =
      >>-Moves h _ _ (raise_if-Moves h _ _) (within_tx-Moves h env _ (verify_in_tx-Moves token))

  forgot_password-Moves :
      (email : Text)
      → Moves R (forgot_password env s.platform s.hasher s.tokens s.notifiers s.config email)
  unfolding forgot_password
  forgot_password-Moves email = >>=-Moves h _ _ (lift-Moves h _) λ normalized.
      if_found-Moves auth env _ _ (user_by_email-Moves auth env normalized)
        λ user. create_and_send-Moves user _ _ _ laws.notifiers.send_password_reset-IsQuiet

  send_unless-Moves :
      (user : User) (b : Bool)
      → user.email_verified ≡ b
      → Moves R (send_unless_verified env s.platform s.hasher s.tokens s.notifiers s.config user)
  unfolding send_unless_verified
  send_unless-Moves user true e = simp e (pure-Moves h _)
  send_unless-Moves user false e =
      simp e (create_and_send-Moves user _ _ _ laws.notifiers.send_email_verification-IsQuiet)

  send_verification-Moves :
      (id : Text)
      → Moves R (send_verification_email env s.platform s.hasher s.tokens s.notifiers s.config id)
  unfolding send_verification_email
  send_verification-Moves id =
      >>=-Moves h _ _ (map_error-Moves h _ _ (user_by_id-Moves auth env id))
        λ user. send_unless-Moves user _ refl

  pub answer-Moves : (request : IdentityRequest) → Moves R (answer env s request)
  unfolding answer register login
  answer-Moves (registers input) =
      only_done-Moves _ (>>=-Moves h _ _ (register_user-Moves input) create_session-Moves)
  answer-Moves (logs_in input) =
      only_done-Moves _ (>>=-Moves h _ _ (login_user-Moves input) create_session-Moves)
  answer-Moves (refreshes token) = only_done-Moves _ (refresh-Moves token)
  answer-Moves (logs_out token) = only_done-Moves _ (logout-Moves token)
  answer-Moves (logs_out_all token) = logout_all-Moves token
  answer-Moves (logs_out_current token) = logout_current-Moves token
  answer-Moves (lists_sessions user_id) = only_done-Moves _ (list-Moves user_id)
  answer-Moves (authenticates token) = only_done-Moves _ (authenticate-Moves token)
  answer-Moves (revokes_session user_id id) = revoke_session-Moves user_id id
  answer-Moves (forgets_password email) = forgot_password-Moves email
  answer-Moves (sends_verification user_id) = send_verification-Moves user_id
  answer-Moves (verifies_email token) = verify_email-Moves token
  answer-Moves (resets_password input) = reset_password-Moves input

  -- Any number of requests, and time that passes.
  pub requests-Moves : {u v : World} → Requests env s u v → R u v
  unfolding Moves
  requests-Moves {u} nothing_yet = h.same_tables u u refl (omega arith)
  requests-Moves {u} (and_then q request) =
      h.in_turn u _ _ (requests-Moves q) (answer-Moves request _)
  requests-Moves {u} (and_waits q n) =
      h.in_turn u _ _ (requests-Moves q) (h.same_tables _ _ refl (omega arith))
