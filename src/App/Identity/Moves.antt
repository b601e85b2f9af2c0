-- ===== src/App/Identity/Moves.antt =====
-- A relation between worlds that every statement on users, sessions and one-time tokens keeps is
-- kept by the operations of the repositories.
use moneo_backend.Common.{ℕ, ◌≡◌, Bool, true, false, Text, Option, none, some, ok, err, arith}
use moneo_backend.Domain.Errors.{Outcome}
use moneo_backend.Domain.Identity.{User, Session, OneTimeToken, OneTimeTokenPurpose}
use moneo_backend.Domain.Identity.Credentials.{Platform}
use moneo_backend.Infra.Database.{
  UserRow, SessionRow, OneTimeTokenRow, Database, Env, World, Action, tick,
}
use moneo_backend.Infra.Database.Histories.{
  IsHistory, Moves, >>=-Moves, lift-Moves, pure-Moves, raise-Moves, execute-Moves,
  execute-Moves_query,
}
use moneo_backend.Infra.UserRepository
use moneo_backend.Infra.SessionRepository
use moneo_backend.Infra.OneTimeTokenRepository
use moneo_backend.App.Identity.{ignore_missing_session}
use moneo_backend.App.Identity.Interfaces.{IsQuiet}
use moneo_backend.App.Identity.PostMvp.{if_found, find_or_stop}

-- A statement that `f` describes, from `w`.
abbrev pub Carries :
    (World → World → Type 0) → {A : Type 0} → (Database → Outcome (A × Database)) → Type 0
Carries R {A} f =
    (w : World) (a : A) (db' : Database) → f w.db ≡ ok (a, db') → R w (record (tick w) { db = db' })

pub record IsAuthHistory (R : World → World → Type 0) : Type 0 where
  pub history : IsHistory R
  pub insert_user : (id : Text) (row : UserRow) → Carries R (UserRepository.insert_user id row)
  pub set_password :
      (id hash : Text) (at : ℕ)
      → Carries R (UserRepository.rewrite_user (UserRepository.with_password hash at) id)
  pub set_verified :
      (id : Text) (at : ℕ)
      → Carries R (UserRepository.rewrite_user (UserRepository.with_verified_email at) id)
  pub insert_session :
      (id : Text) (row : SessionRow)
      → row.revoked_at ≡ none
      → Carries R (SessionRepository.insert_session id row)
  pub touch_session :
      (id : Text) (at : ℕ)
      → Carries R (
          SessionRepository.rewrite_session
            (SessionRepository.is_live at)
            (SessionRepository.touched at)
            id)
  pub revoke_session :
      (id : Text) (at : ℕ)
      → Carries R (
          SessionRepository.rewrite_session SessionRepository.is_not_revoked
            (SessionRepository.revoked at)
            id)
  pub revoke_sessions :
      (user_id : Text) (at : ℕ) → Carries R (SessionRepository.revoke_sessions user_id at)
  pub insert_token :
      (id : Text) (row : OneTimeTokenRow) → Carries R (OneTimeTokenRepository.insert_token id row)
  pub use_token : (id : Text) (at : ℕ) → Carries R (OneTimeTokenRepository.use_token id at)

module _ {R : World → World → Type 0} (auth : IsAuthHistory R) (env : Env) where
  abbrev h : IsHistory R
  h = auth.history

  pub quiet-Moves : {A : Type 0} (m : Action A) → IsQuiet m → Moves R m
  unfolding IsQuiet Moves
  quiet-Moves m q w = let ((d, t), c) = q w in h.same_tables w (m w).1 d c

  found_user-Moves : (r : Option (Text × UserRow)) → Moves R (UserRepository.found_user r)
  unfolding UserRepository.found_user
  found_user-Moves none = raise-Moves h _ _
  found_user-Moves (some (id, row)) = pure-Moves h _

  require_user-Moves : (b : Bool) → Moves R (UserRepository.require_user b)
  unfolding UserRepository.require_user
  require_user-Moves true = pure-Moves h _
  require_user-Moves false = raise-Moves h _ _

  found_session-Moves :
      (r : Option (Text × SessionRow)) → Moves R (SessionRepository.found_session r)
  unfolding SessionRepository.found_session
  found_session-Moves none = raise-Moves h _ _
  found_session-Moves (some (id, row)) = pure-Moves h _

  require_session-Moves : (b : Bool) → Moves R (SessionRepository.require_session b)
  unfolding SessionRepository.require_session
  require_session-Moves true = pure-Moves h _
  require_session-Moves false = raise-Moves h _ _

  found_token-Moves :
      (r : Option (Text × OneTimeTokenRow)) → Moves R (OneTimeTokenRepository.found_token r)
  unfolding OneTimeTokenRepository.found_token
  found_token-Moves none = raise-Moves h _ _
  found_token-Moves (some (id, row)) = >>=-Moves h _ _ (lift-Moves h _) λ purpose. pure-Moves h _

  require_token-Moves : (b : Bool) → Moves R (OneTimeTokenRepository.require_token b)
  unfolding OneTimeTokenRepository.require_token
  require_token-Moves true = pure-Moves h _
  require_token-Moves false = raise-Moves h _ _

  pub user_by_email-Moves :
      (email : Text) → Moves R (UserRepository.find_by_normalized_email env email)
  unfolding UserRepository.find_by_normalized_email
  user_by_email-Moves email = >>=-Moves h _ _ (execute-Moves_query h env _ _) found_user-Moves

  pub user_by_id-Moves : (id : Text) → Moves R (UserRepository.find_by_id env id)
  unfolding UserRepository.find_by_id
  user_by_id-Moves id = >>=-Moves h _ _ (execute-Moves_query h env _ _) found_user-Moves

  pub session_by_hash-Moves :
      (hash : Text) → Moves R (SessionRepository.find_by_refresh_token_hash env hash)
  unfolding SessionRepository.find_by_refresh_token_hash
  session_by_hash-Moves hash = >>=-Moves h _ _ (execute-Moves_query h env _ _) found_session-Moves

  pub session_by_id-Moves : (id : Text) → Moves R (SessionRepository.find_by_id env id)
  unfolding SessionRepository.find_by_id
  session_by_id-Moves id = >>=-Moves h _ _ (execute-Moves_query h env _ _) found_session-Moves

  pub revoke_by_id-Moves : (id : Text) (at : ℕ) → Moves R (SessionRepository.revoke_by_id env id at)
  unfolding SessionRepository.revoke_by_id
  revoke_by_id-Moves id at =
      >>=-Moves h _ _ (execute-Moves h env _ _ (auth.revoke_session id at)) require_session-Moves

  pub revoke_all-Moves :
      (user_id : Text) (at : ℕ) → Moves R (SessionRepository.revoke_all_by_user_id env user_id at)
  unfolding SessionRepository.revoke_all_by_user_id
  revoke_all-Moves user_id at = execute-Moves h env _ _ (auth.revoke_sessions user_id at)

  pub mark_used-Moves : (id : Text) (at : ℕ) → Moves R (OneTimeTokenRepository.mark_used env id at)
  unfolding OneTimeTokenRepository.mark_used
  mark_used-Moves id at =
      >>=-Moves h _ _ (execute-Moves h env _ _ (auth.use_token id at)) require_token-Moves

  pub token_by_hash-Moves :
      (purpose : OneTimeTokenPurpose) (hash : Text) (now : ℕ)
      → Moves R (OneTimeTokenRepository.find_active_by_hash env purpose hash now)
  unfolding OneTimeTokenRepository.find_active_by_hash
  token_by_hash-Moves purpose hash now =
      >>=-Moves h _ _ (execute-Moves_query h env _ _) found_token-Moves

  pub ignore_missing_session-Moves :
      (m : Action (Unit {0})) → Moves R m → Moves R (ignore_missing_session m)
  unfolding Moves ignore_missing_session
  ignore_missing_session-Moves m k w = k w

  pub if_found-Moves :
      (m : Action User) (f : User → Action (Unit {0}))
      → Moves R m
      → ((user : User) → Moves R (f user))
      → Moves R (if_found m f)
  unfolding Moves if_found find_or_stop
  if_found-Moves m f k g w = after (m w).0 (m w).1 (k w)
    where
      after : (r : Outcome User) (u : World) → R w u → R w (find_or_stop r f u).1
      after (ok user) u s = h.in_turn w u _ s (g user u)
      after (err e) u s = ground arith

  pub insert_user-Moves :
      (platform : Platform) (user : User) → Moves R (UserRepository.create env platform user)
  unfolding UserRepository.create
  insert_user-Moves platform user = execute-Moves h env _ _ (auth.insert_user user.id _)

  pub update_password-Moves :
      (id hash : Text) (at : ℕ) → Moves R (UserRepository.update_password env id hash at)
  unfolding UserRepository.update_password
  update_password-Moves id hash at =
      >>=-Moves h _ _ (execute-Moves h env _ _ (auth.set_password id hash at)) require_user-Moves

  pub mark_email_verified-Moves :
      (id : Text) (at : ℕ) → Moves R (UserRepository.mark_email_verified env id at)
  unfolding UserRepository.mark_email_verified
  mark_email_verified-Moves id at =
      >>=-Moves h _ _ (execute-Moves h env _ _ (auth.set_verified id at)) require_user-Moves

  pub insert_session-Moves :
      (s : Session) → s.revoked_at ≡ none → Moves R (SessionRepository.create env s)
  unfolding SessionRepository.create SessionRepository.row_of
  insert_session-Moves s n = execute-Moves h env _ _ (auth.insert_session s.id _ n)

  pub touch-Moves : (id : Text) (at : ℕ) → Moves R (SessionRepository.touch_last_used_at env id at)
  unfolding SessionRepository.touch_last_used_at
  touch-Moves id at =
      >>=-Moves h _ _ (execute-Moves h env _ _ (auth.touch_session id at)) require_session-Moves

  pub insert_token-Moves : (t : OneTimeToken) → Moves R (OneTimeTokenRepository.create env t)
  unfolding OneTimeTokenRepository.create
  insert_token-Moves t = execute-Moves h env _ _ (auth.insert_token t.id _)
