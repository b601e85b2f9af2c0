-- ===== src/Tests/Sessions.antt =====
-- Requests for users and sessions, one after the other.
use moneo_backend.Common.{
  ℕ, ◌+◌, ◌≡◌, refl, false, Text, codes, text_eq, trim_space, is_empty, Option, none, some, [], ◌∷◌,
  ok, err,
}
use moneo_backend.Domain.Errors.{Outcome}
use moneo_backend.Domain.Identity.{
  User, new_user, new_session, new_one_time_token, purpose_text, is_known_one_time_token_purpose,
}
use moneo_backend.Domain.Identity.Credentials.{
  validate_registration, validate_login, normalize_email, validate_password, is_valid_email,
  parses_to_itself, is_forbidden, split_at, has_two_parts, byte_length, scan_password,
}
use moneo_backend.Infra.Table.{lookup, insert, find_row, map_rows}
use moneo_backend.Infra.Database.{
  SessionRow, OneTimeTokenRow, World, ◌>>=◌, ◌>>◌, clock_now, generate_id, execute, control,
  within_tx, run_tx, finish_tx, close_tx,
}
use moneo_backend.Infra.UserRepository
use moneo_backend.Infra.UserRepository.{generated_email}
use moneo_backend.Infra.SessionRepository
use moneo_backend.Infra.SessionRepository.{is_live, revoked}
use moneo_backend.Infra.OneTimeTokenRepository
use moneo_backend.Infra.OneTimeTokenRepository.{is_usable}
use moneo_backend.Infra.Security
use moneo_backend.Infra.Security.{
  token_issuer, sign_jwt, verify_parts, or_fail, is_jwt, misses_claims, claims_of, unix,
  hash_refresh_token, read_random, issue_random, verify_access_token, verify_access_token_identity,
}
use moneo_backend.App.Services.Atomic.{only_done}
use moneo_backend.App.Identity.{
  register, login, register_user, login_user, create_session_and_issue_tokens, logout_all,
  authenticate, is_revoked, is_ended, revoke_session,
}
use moneo_backend.App.Identity.Interfaces.{AuthTokens, LoginInput}
use moneo_backend.App.Identity.PostMvp.{
  ResetPasswordInput, forgot_password, reset_password, reset_in_tx, if_found, find_or_stop,
  create_and_send_token, find_active_one_time_token,
}
use moneo_backend.App.Identity.Requests.{
  Requests, answer, logs_in, registers, forgets_password, nothing_yet, and_then,
}
use moneo_backend.Tests.Identities.{
  env, go, config, platform, hasher, services, start, anna, anna_again, shift_up, shift_down,
  write_header, write_claims, read_claims,
}

abbrev pub access_of : Outcome AuthTokens → Text
access_of (ok t) = t.access_token
access_of (err e) = []

-- the user and the sessions of the runs below
abbrev pub anna_user : User
anna_user = record {
  id = codes "a";
  email = codes "anna@post.ru";
  normalized_email = codes "anna@post.ru";
  password_hash = codes "hsecret123";
  email_verified = false;
  created_at = 1001000000;
  updated_at = 1001000000;
}

abbrev pub session_at : Text → Text → ℕ → Option ℕ → SessionRow
session_at user_id hash at revoked_at = record {
  user_id = user_id;
  refresh_token_hash = hash;
  user_agent = none;
  ip = none;
  device_name = none;
  created_at = at;
  last_used_at = none;
  expires_at = at + 86399000000;
  revoked_at = revoked_at;
}

abbrev pub first_session : SessionRow
first_session = session_at (codes "a") (1003 ∷ []) 1005000000 none

abbrev pub after_register : World
after_register = record start {
  db = record start.db {
    users = (codes "a", UserRepository.row_of platform anna_user) ∷ [];
    sessions = (codes "g", first_session) ∷ [];
  };
  calls = 9;
}

-- the tokens of the user for a session, by the second at which they are issued
abbrev pub tokens_for : ℕ → ℕ → ℕ → AuthTokens
tokens_for letter refresh second = record {
  access_token =
      1072
      ∷ 46
      ∷ 1097
      ∷ (1000 + letter)
      ∷ (1000 + second)
      ∷ (1900 + second)
      ∷ 46
      ∷ 1007
      ∷ 2072
      ∷ 1046
      ∷ 2097
      ∷ (2000 + letter)
      ∷ (2000 + second)
      ∷ (2900 + second)
      ∷ [];
  refresh_token = refresh ∷ [];
  expires_in = 900;
}

abbrev pub first_tokens : AuthTokens
first_tokens = tokens_for 103 1003 1008

-- LogoutAll with the first access token, and a login after it
abbrev pub ended_session : SessionRow
ended_session = session_at (codes "a") (1003 ∷ []) 1005000000 (some 1010000000)

abbrev pub after_logout : World
after_logout = record after_register {
  db = record after_register.db { sessions = (codes "g", ended_session) ∷ [] };
  calls = 12;
}

abbrev pub second_session : SessionRow
second_session = session_at (codes "a") (1013 ∷ []) 1015000000 none

abbrev pub after_login : World
after_login = record after_logout {
  db = record after_logout.db {
    sessions = (codes "g", ended_session) ∷ (codes "q", second_session) ∷ [];
  };
  calls = 19;
}

abbrev pub second_tokens : AuthTokens
second_tokens = tokens_for 113 1013 1018

-- the reset of the password, and a login after it
abbrev pub reset_token : OneTimeTokenRow
reset_token = record {
  user_id = codes "a";
  purpose = codes "password_reset";
  token_hash = 1010 ∷ [];
  created_at = 1012000000;
  expires_at = 2811000000;
  used_at = none;
}

abbrev pub after_forgot : World
after_forgot = record after_register {
  db = record after_register.db { one_time_tokens = (codes "n", reset_token) ∷ [] };
  calls = 15;
}

abbrev pub new_password : ResetPasswordInput
new_password = record {
  token = 1010 ∷ [];
  password = codes "another456";
  password_confirm = codes "another456";
}

abbrev pub reset_session : SessionRow
reset_session = session_at (codes "a") (1003 ∷ []) 1005000000 (some 1018000000)

abbrev pub after_reset : World
after_reset = record after_forgot {
  db = record after_forgot.db {
    users =
        (
          codes "a",
          record (UserRepository.row_of platform anna_user) {
            password_hash = codes "hanother456";
            updated_at = 1018000000;
          },
        )
        ∷ [];
    sessions = (codes "g", reset_session) ∷ [];
    one_time_tokens = (codes "n", record reset_token { used_at = some 1018000000 }) ∷ [];
  };
  calls = 23;
}

abbrev pub anna_changed : LoginInput
anna_changed = record { email = codes "anna@post.ru"; password = codes "another456" }

abbrev pub third_session : SessionRow
third_session = session_at (codes "a") (1024 ∷ []) 1026000000 none

abbrev pub after_third : World
after_third = record after_reset {
  db = record after_reset.db {
    sessions = (codes "g", reset_session) ∷ (124 ∷ [], third_session) ∷ [];
  };
  calls = 30;
}

abbrev pub third_tokens : AuthTokens
third_tokens = tokens_for 124 1024 1029

pub runs :
    (register env platform hasher services.tokens anna start ≡ (ok first_tokens, after_register))
    × (logout_all env services.tokens first_tokens.access_token after_register
        ≡ (ok tt, after_logout))
    × (login env platform hasher services.tokens anna_again after_logout
        ≡ (ok second_tokens, after_login))
    × (authenticate env services.tokens second_tokens.access_token after_login ≡ (
      ok (anna_user, SessionRepository.session_of (codes "q") second_session),
      record after_login { calls = 23 },
    ))
    × (forgot_password env platform hasher services.tokens services.notifiers services.config
          (codes "anna@post.ru")
          after_register
        ≡ (ok tt, after_forgot))
    × (reset_password env platform hasher services.tokens services.notifiers services.config
          new_password after_forgot
        ≡ (ok tt, after_reset))
    × (login env platform hasher services.tokens anna_changed after_reset
        ≡ (ok third_tokens, after_third))
    × ((services.tokens.verify_access_token_identity first_tokens.access_token after_register).0
        ≡ ok (codes "a", codes "g"))
    × (revoke_session env services.tokens (codes "a") (codes "q") after_login ≡ (
      ok tt,
      record after_login {
        db = record after_login.db {
          sessions =
              (codes "g", ended_session)
              ∷ (codes "q", record second_session { revoked_at = some 1020000000 })
              ∷ [];
        };
        calls = 22;
      },
    ))
    × (authenticate env services.tokens third_tokens.access_token after_third ≡ (
      ok (
        record anna_user { password_hash = codes "hanother456"; updated_at = 1018000000 },
        SessionRepository.session_of (124 ∷ []) third_session,
      ),
      record after_third { calls = 34 },
    ))
    × (register_user env platform hasher anna start ≡ (
      ok anna_user,
      record after_register { db = record start.db { users = after_register.db.users }; calls = 3 },
    ))
    × (Security.issue_access_token env go config
          (codes "a")
          (codes "g")
          (record start { calls = 8 })
        ≡ (ok first_tokens.access_token, record start { calls = 9 }))
    × (verify_access_token_identity env go config first_tokens.access_token
          (record start { calls = 9 })
        ≡ (ok (codes "a", codes "g"), record start { calls = 10 }))
unfolding register register_user create_session_and_issue_tokens validate_registration
    normalize_email validate_password is_valid_email parses_to_itself is_forbidden split_at
    has_two_parts byte_length scan_password new_user new_session trim_space is_empty text_eq lookup
    insert find_row map_rows ◌>>=◌ ◌>>◌ clock_now generate_id execute control within_tx run_tx
    finish_tx close_tx UserRepository.create UserRepository.insert_user UserRepository.row_of
    generated_email UserRepository.has_email UserRepository.trim_left_spaces
    UserRepository.trim_right_spaces UserRepository.find_by_id UserRepository.with_id
    UserRepository.find_by_normalized_email UserRepository.found_user UserRepository.user_of
    UserRepository.update_password UserRepository.rewrite_user UserRepository.with_password
    UserRepository.require_user SessionRepository.create SessionRepository.insert_session
    SessionRepository.row_of SessionRepository.holds_hash SessionRepository.has_hash
    SessionRepository.is_not_revoked SessionRepository.find_by_id SessionRepository.with_id
    SessionRepository.found_session SessionRepository.session_of
    SessionRepository.revoke_all_by_user_id SessionRepository.revoke_sessions
    SessionRepository.revoked_if_live SessionRepository.revoke_by_id
    SessionRepository.rewrite_session SessionRepository.require_session is_live revoked
    OneTimeTokenRepository.create OneTimeTokenRepository.insert_token OneTimeTokenRepository.row_of
    OneTimeTokenRepository.is_allowed_purpose OneTimeTokenRepository.has_hash
    OneTimeTokenRepository.find_active_by_hash OneTimeTokenRepository.is_active_with
    OneTimeTokenRepository.found_token OneTimeTokenRepository.parse_one_time_token_purpose
    OneTimeTokenRepository.token_of OneTimeTokenRepository.mark_used
    OneTimeTokenRepository.use_token OneTimeTokenRepository.used
    OneTimeTokenRepository.require_token is_usable token_issuer Security.issue_access_token
    Security.issue_refresh_token Security.issue_one_time_token Security.hash_one_time_token
    issue_random read_random hash_refresh_token or_fail sign_jwt unix verify_access_token
    verify_access_token_identity verify_parts is_jwt misses_claims claims_of shift_up shift_down
    write_header write_claims read_claims login login_user validate_login logout_all authenticate
    is_revoked is_ended revoke_session forgot_password reset_password reset_in_tx if_found
    find_or_stop create_and_send_token find_active_one_time_token new_one_time_token purpose_text
    is_known_one_time_token_purpose answer only_done
runs = (refl, refl, refl, refl, refl, refl, refl, refl, refl, refl, refl, refl, refl)

pub logged_in : Requests env services after_logout after_login
unfolding register register_user create_session_and_issue_tokens validate_registration
    normalize_email validate_password is_valid_email parses_to_itself is_forbidden split_at
    has_two_parts byte_length scan_password new_user new_session trim_space is_empty text_eq lookup
    insert find_row map_rows ◌>>=◌ ◌>>◌ clock_now generate_id execute control within_tx run_tx
    finish_tx close_tx UserRepository.create UserRepository.insert_user UserRepository.row_of
    generated_email UserRepository.has_email UserRepository.trim_left_spaces
    UserRepository.trim_right_spaces UserRepository.find_by_id UserRepository.with_id
    UserRepository.find_by_normalized_email UserRepository.found_user UserRepository.user_of
    UserRepository.update_password UserRepository.rewrite_user UserRepository.with_password
    UserRepository.require_user SessionRepository.create SessionRepository.insert_session
    SessionRepository.row_of SessionRepository.holds_hash SessionRepository.has_hash
    SessionRepository.is_not_revoked SessionRepository.find_by_id SessionRepository.with_id
    SessionRepository.found_session SessionRepository.session_of
    SessionRepository.revoke_all_by_user_id SessionRepository.revoke_sessions
    SessionRepository.revoked_if_live SessionRepository.revoke_by_id
    SessionRepository.rewrite_session SessionRepository.require_session is_live revoked
    OneTimeTokenRepository.create OneTimeTokenRepository.insert_token OneTimeTokenRepository.row_of
    OneTimeTokenRepository.is_allowed_purpose OneTimeTokenRepository.has_hash
    OneTimeTokenRepository.find_active_by_hash OneTimeTokenRepository.is_active_with
    OneTimeTokenRepository.found_token OneTimeTokenRepository.parse_one_time_token_purpose
    OneTimeTokenRepository.token_of OneTimeTokenRepository.mark_used
    OneTimeTokenRepository.use_token OneTimeTokenRepository.used
    OneTimeTokenRepository.require_token is_usable token_issuer Security.issue_access_token
    Security.issue_refresh_token Security.issue_one_time_token Security.hash_one_time_token
    issue_random read_random hash_refresh_token or_fail sign_jwt unix verify_access_token
    verify_access_token_identity verify_parts is_jwt misses_claims claims_of shift_up shift_down
    write_header write_claims read_claims login login_user validate_login logout_all authenticate
    is_revoked is_ended revoke_session forgot_password reset_password reset_in_tx if_found
    find_or_stop create_and_send_token find_active_one_time_token new_one_time_token purpose_text
    is_known_one_time_token_purpose answer only_done
logged_in = and_then nothing_yet (logs_in anna_again)

pub logged_in_again : Requests env services after_reset after_third
unfolding register register_user create_session_and_issue_tokens validate_registration
    normalize_email validate_password is_valid_email parses_to_itself is_forbidden split_at
    has_two_parts byte_length scan_password new_user new_session trim_space is_empty text_eq lookup
    insert find_row map_rows ◌>>=◌ ◌>>◌ clock_now generate_id execute control within_tx run_tx
    finish_tx close_tx UserRepository.create UserRepository.insert_user UserRepository.row_of
    generated_email UserRepository.has_email UserRepository.trim_left_spaces
    UserRepository.trim_right_spaces UserRepository.find_by_id UserRepository.with_id
    UserRepository.find_by_normalized_email UserRepository.found_user UserRepository.user_of
    UserRepository.update_password UserRepository.rewrite_user UserRepository.with_password
    UserRepository.require_user SessionRepository.create SessionRepository.insert_session
    SessionRepository.row_of SessionRepository.holds_hash SessionRepository.has_hash
    SessionRepository.is_not_revoked SessionRepository.find_by_id SessionRepository.with_id
    SessionRepository.found_session SessionRepository.session_of
    SessionRepository.revoke_all_by_user_id SessionRepository.revoke_sessions
    SessionRepository.revoked_if_live SessionRepository.revoke_by_id
    SessionRepository.rewrite_session SessionRepository.require_session is_live revoked
    OneTimeTokenRepository.create OneTimeTokenRepository.insert_token OneTimeTokenRepository.row_of
    OneTimeTokenRepository.is_allowed_purpose OneTimeTokenRepository.has_hash
    OneTimeTokenRepository.find_active_by_hash OneTimeTokenRepository.is_active_with
    OneTimeTokenRepository.found_token OneTimeTokenRepository.parse_one_time_token_purpose
    OneTimeTokenRepository.token_of OneTimeTokenRepository.mark_used
    OneTimeTokenRepository.use_token OneTimeTokenRepository.used
    OneTimeTokenRepository.require_token is_usable token_issuer Security.issue_access_token
    Security.issue_refresh_token Security.issue_one_time_token Security.hash_one_time_token
    issue_random read_random hash_refresh_token or_fail sign_jwt unix verify_access_token
    verify_access_token_identity verify_parts is_jwt misses_claims claims_of shift_up shift_down
    write_header write_claims read_claims login login_user validate_login logout_all authenticate
    is_revoked is_ended revoke_session forgot_password reset_password reset_in_tx if_found
    find_or_stop create_and_send_token find_active_one_time_token new_one_time_token purpose_text
    is_known_one_time_token_purpose answer only_done
logged_in_again = and_then nothing_yet (logs_in anna_changed)

pub registered : Requests env services start after_register
unfolding register register_user create_session_and_issue_tokens validate_registration
    normalize_email validate_password is_valid_email parses_to_itself is_forbidden split_at
    has_two_parts byte_length scan_password new_user new_session trim_space is_empty text_eq lookup
    insert find_row map_rows ◌>>=◌ ◌>>◌ clock_now generate_id execute control within_tx run_tx
    finish_tx close_tx UserRepository.create UserRepository.insert_user UserRepository.row_of
    generated_email UserRepository.has_email UserRepository.trim_left_spaces
    UserRepository.trim_right_spaces UserRepository.find_by_id UserRepository.with_id
    UserRepository.find_by_normalized_email UserRepository.found_user UserRepository.user_of
    UserRepository.update_password UserRepository.rewrite_user UserRepository.with_password
    UserRepository.require_user SessionRepository.create SessionRepository.insert_session
    SessionRepository.row_of SessionRepository.holds_hash SessionRepository.has_hash
    SessionRepository.is_not_revoked SessionRepository.find_by_id SessionRepository.with_id
    SessionRepository.found_session SessionRepository.session_of
    SessionRepository.revoke_all_by_user_id SessionRepository.revoke_sessions
    SessionRepository.revoked_if_live SessionRepository.revoke_by_id
    SessionRepository.rewrite_session SessionRepository.require_session is_live revoked
    OneTimeTokenRepository.create OneTimeTokenRepository.insert_token OneTimeTokenRepository.row_of
    OneTimeTokenRepository.is_allowed_purpose OneTimeTokenRepository.has_hash
    OneTimeTokenRepository.find_active_by_hash OneTimeTokenRepository.is_active_with
    OneTimeTokenRepository.found_token OneTimeTokenRepository.parse_one_time_token_purpose
    OneTimeTokenRepository.token_of OneTimeTokenRepository.mark_used
    OneTimeTokenRepository.use_token OneTimeTokenRepository.used
    OneTimeTokenRepository.require_token is_usable token_issuer Security.issue_access_token
    Security.issue_refresh_token Security.issue_one_time_token Security.hash_one_time_token
    issue_random read_random hash_refresh_token or_fail sign_jwt unix verify_access_token
    verify_access_token_identity verify_parts is_jwt misses_claims claims_of shift_up shift_down
    write_header write_claims read_claims login login_user validate_login logout_all authenticate
    is_revoked is_ended revoke_session forgot_password reset_password reset_in_tx if_found
    find_or_stop create_and_send_token find_active_one_time_token new_one_time_token purpose_text
    is_known_one_time_token_purpose answer only_done
registered = and_then nothing_yet (registers anna)

pub asked : Requests env services start after_forgot
unfolding register register_user create_session_and_issue_tokens validate_registration
    normalize_email validate_password is_valid_email parses_to_itself is_forbidden split_at
    has_two_parts byte_length scan_password new_user new_session trim_space is_empty text_eq lookup
    insert find_row map_rows ◌>>=◌ ◌>>◌ clock_now generate_id execute control within_tx run_tx
    finish_tx close_tx UserRepository.create UserRepository.insert_user UserRepository.row_of
    generated_email UserRepository.has_email UserRepository.trim_left_spaces
    UserRepository.trim_right_spaces UserRepository.find_by_id UserRepository.with_id
    UserRepository.find_by_normalized_email UserRepository.found_user UserRepository.user_of
    UserRepository.update_password UserRepository.rewrite_user UserRepository.with_password
    UserRepository.require_user SessionRepository.create SessionRepository.insert_session
    SessionRepository.row_of SessionRepository.holds_hash SessionRepository.has_hash
    SessionRepository.is_not_revoked SessionRepository.find_by_id SessionRepository.with_id
    SessionRepository.found_session SessionRepository.session_of
    SessionRepository.revoke_all_by_user_id SessionRepository.revoke_sessions
    SessionRepository.revoked_if_live SessionRepository.revoke_by_id
    SessionRepository.rewrite_session SessionRepository.require_session is_live revoked
    OneTimeTokenRepository.create OneTimeTokenRepository.insert_token OneTimeTokenRepository.row_of
    OneTimeTokenRepository.is_allowed_purpose OneTimeTokenRepository.has_hash
    OneTimeTokenRepository.find_active_by_hash OneTimeTokenRepository.is_active_with
    OneTimeTokenRepository.found_token OneTimeTokenRepository.parse_one_time_token_purpose
    OneTimeTokenRepository.token_of OneTimeTokenRepository.mark_used
    OneTimeTokenRepository.use_token OneTimeTokenRepository.used
    OneTimeTokenRepository.require_token is_usable token_issuer Security.issue_access_token
    Security.issue_refresh_token Security.issue_one_time_token Security.hash_one_time_token
    issue_random read_random hash_refresh_token or_fail sign_jwt unix verify_access_token
    verify_access_token_identity verify_parts is_jwt misses_claims claims_of shift_up shift_down
    write_header write_claims read_claims login login_user validate_login logout_all authenticate
    is_revoked is_ended revoke_session forgot_password reset_password reset_in_tx if_found
    find_or_stop create_and_send_token find_active_one_time_token new_one_time_token purpose_text
    is_known_one_time_token_purpose answer only_done
asked = and_then registered (forgets_password (codes "anna@post.ru"))
