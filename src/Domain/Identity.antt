-- ===== src/Domain/Identity.antt =====
-- internal/domain/identity: users, credentials, sessions and one-time tokens. A time is a number of
-- microseconds; a text column or a Go string that may be null is an option.
pub mod Credentials
use moneo_backend.Common.{
  ℕ, ◌<◌, ◌≡◌, arith, Bool, true, false, not, Text, codes, text_eq, trim_space, is_empty, Option,
  none, some, ok, err, ltb, fail_if, ◌>>=◌, ◌>>◌,
}
use moneo_backend.Domain.Errors.{
  Outcome, password_hash_required, session_id_required, session_user_id_required,
  session_refresh_hash_missing, session_expires_at_invalid, one_time_token_id_required,
  one_time_token_user_id_required, one_time_token_purpose_required, one_time_token_hash_required,
  one_time_token_expires_at_past,
}

pub record User : Type 0 where
  pub id : Text
  pub email : Text
  pub normalized_email : Text
  pub password_hash : Text
  pub email_verified : Bool
  pub created_at : ℕ
  pub updated_at : ℕ

-- `NewUser`
unfoldable pub new_user : Text → Text → Text → Text → ℕ → Outcome User
new_user id email normalized_email password_hash now = do
  fail_if (is_empty (trim_space password_hash)) password_hash_required
  ok (record {
    id = id;
    email = trim_space email;
    normalized_email = normalized_email;
    password_hash = password_hash;
    email_verified = false;
    created_at = now;
    updated_at = now;
  })

pub record Session : Type 0 where
  pub id : Text
  pub user_id : Text
  pub refresh_token_hash : Text
  pub user_agent : Option Text
  pub ip : Option Text
  pub device_name : Option Text
  pub created_at : ℕ
  pub last_used_at : Option ℕ
  pub expires_at : ℕ
  pub revoked_at : Option ℕ

-- `NewSession`; `expiresAt.After(now)` is `ltb now expires_at`
unfoldable pub new_session : Text → Text → Text → ℕ → ℕ → Outcome Session
new_session id user_id refresh_token_hash now expires_at = do
  fail_if (is_empty (trim_space id)) session_id_required
  fail_if (is_empty (trim_space user_id)) session_user_id_required
  fail_if (is_empty (trim_space refresh_token_hash)) session_refresh_hash_missing
  fail_if (not (ltb now expires_at)) session_expires_at_invalid
  ok (record {
    id = id;
    user_id = user_id;
    refresh_token_hash = refresh_token_hash;
    user_agent = none;
    ip = none;
    device_name = none;
    created_at = now;
    last_used_at = none;
    expires_at = expires_at;
    revoked_at = none;
  })

-- What a session is that the constructor makes.
pub new_session-eq-ok :
    (id user_id hash : Text) (now expires_at : ℕ) {s : Session}
    → new_session id user_id hash now expires_at ≡ ok s
    → (s.id ≡ id)
      × (s.user_id ≡ user_id)
      × (s.refresh_token_hash ≡ hash)
      × (s.expires_at ≡ expires_at)
      × (s.revoked_at ≡ none)
      × (now < expires_at)
unfolding new_session
new_session-eq-ok id user_id hash now expires_at h = ground arith

-- `OneTimeTokenPurpose` is a string type
pub data OneTimeTokenPurpose : Type 0 where
  password_reset email_verification : OneTimeTokenPurpose
  other_purpose : Text → OneTimeTokenPurpose

-- `string(purpose)`
unfoldable pub purpose_text : OneTimeTokenPurpose → Text
purpose_text password_reset = codes "password_reset"
purpose_text email_verification = codes "email_verification"
purpose_text (other_purpose s) = s

-- `isKnownOneTimeTokenPurpose`
unfoldable pub is_known_one_time_token_purpose : OneTimeTokenPurpose → Bool
is_known_one_time_token_purpose password_reset = true
is_known_one_time_token_purpose email_verification = true
is_known_one_time_token_purpose (other_purpose s) = false

pub record OneTimeToken : Type 0 where
  pub id : Text
  pub user_id : Text
  pub purpose : OneTimeTokenPurpose
  pub token_hash : Text
  pub created_at : ℕ
  pub expires_at : ℕ
  pub used_at : Option ℕ

-- `NewOneTimeToken`
unfoldable pub new_one_time_token :
    Text → Text → OneTimeTokenPurpose → Text → ℕ → ℕ → Outcome OneTimeToken
new_one_time_token id user_id purpose token_hash now expires_at = do
  fail_if (is_empty (trim_space id)) one_time_token_id_required
  fail_if (is_empty (trim_space user_id)) one_time_token_user_id_required
  fail_if (is_empty (trim_space (purpose_text purpose))) one_time_token_purpose_required
  fail_if (not (is_known_one_time_token_purpose purpose)) one_time_token_purpose_required
  fail_if (is_empty (trim_space token_hash)) one_time_token_hash_required
  fail_if (not (ltb now expires_at)) one_time_token_expires_at_past
  ok (record {
    id = id;
    user_id = user_id;
    purpose = purpose;
    token_hash = token_hash;
    created_at = now;
    expires_at = expires_at;
    used_at = none;
  })
