-- ===== src/Infra/OneTimeTokenRepository.antt =====
-- internal/infra/postgres/auth_repositories.go: the statements on `auth_one_time_tokens`, with the
-- constraints of db/migrations: the id is the primary key, the user stands in `users`, the purpose
-- is one of two, and `token_hash` is unique.
pub mod Laws
use moneo_backend.Common.{
  ℕ, Bool, true, false, ◌&&◌, Text, codes, text_eq, trim_space, Option, none, some, ok, err, ltb,
  if◌then◌else◌,
}
use moneo_backend.Domain.Errors.{
  Outcome, database_failure, one_time_token_not_found, unknown_one_time_token_purpose,
}
use moneo_backend.Domain.Identity.{
  OneTimeToken, OneTimeTokenPurpose, password_reset, email_verification, purpose_text,
}
use moneo_backend.Infra.Table.{Table, lookup, insert, find_row}
use moneo_backend.Infra.Database.{
  OneTimeTokenRow, Database, Env, Action, pure, raise, lift, ◌>>=◌, execute,
}

unfoldable pub row_of : OneTimeToken → OneTimeTokenRow
row_of t = record {
  user_id = t.user_id;
  purpose = purpose_text t.purpose;
  token_hash = t.token_hash;
  created_at = t.created_at;
  expires_at = t.expires_at;
  used_at = t.used_at;
}

-- the CHECK constraint
unfoldable pub is_allowed_purpose : Text → Bool
is_allowed_purpose s =
    if text_eq s (codes "password_reset") then true else text_eq s (codes "email_verification")

-- `parseOneTimeTokenPurpose`
unfoldable pub parse_one_time_token_purpose : Text → Outcome OneTimeTokenPurpose
parse_one_time_token_purpose raw =
    let s = trim_space raw in
    if text_eq s (codes "password_reset")
    then ok password_reset
    else if text_eq s (codes "email_verification")
    then ok email_verification
    else err unknown_one_time_token_purpose

unfoldable pub token_of : Text → OneTimeTokenRow → OneTimeTokenPurpose → OneTimeToken
token_of id row purpose = record {
  id = id;
  user_id = row.user_id;
  purpose = purpose;
  token_hash = row.token_hash;
  created_at = row.created_at;
  expires_at = row.expires_at;
  used_at = row.used_at;
}

-- `used_at IS NULL AND expires_at > $3`
unfoldable pub is_usable : ℕ → OneTimeTokenRow → Bool
is_usable now row = elim row.used_at [ none ↦ ltb now row.expires_at | some at ↦ false ]

unfoldable pub has_hash : Text → OneTimeTokenRow → Bool
has_hash hash row = text_eq row.token_hash hash

-- the WHERE clause of `FindActiveByHash`
unfoldable pub is_active_with : OneTimeTokenPurpose → Text → ℕ → OneTimeTokenRow → Bool
is_active_with purpose hash now row =
    text_eq row.purpose (purpose_text purpose) && has_hash hash row && is_usable now row

-- the INSERT statement
unfoldable pub insert_token : Text → OneTimeTokenRow → Database → Outcome (Unit {0} × Database)
insert_token id row db = elim (lookup id db.one_time_tokens) [
  | some old ↦ err database_failure
  | none ↦ elim (lookup row.user_id db.users) [
    | none ↦ err database_failure
    | some user ↦ elim (find_row (has_hash row.token_hash) db.one_time_tokens) [
      | some old ↦ err database_failure
      | none ↦
          if is_allowed_purpose row.purpose
          then ok (tt, record db { one_time_tokens = insert id row db.one_time_tokens })
          else err database_failure
    ]
  ]
]

unfoldable pub used : ℕ → OneTimeTokenRow → OneTimeTokenRow
used at row = record row { used_at = some at }

-- the UPDATE statement of `MarkUsed`, and whether it affects a row
unfoldable pub use_token : Text → ℕ → Database → Outcome (Bool × Database)
use_token id at db = elim (lookup id db.one_time_tokens) [
  | none ↦ ok (false, db)
  | some row ↦
      if is_usable at row
      then ok (true, record db { one_time_tokens = insert id (used at row) db.one_time_tokens })
      else ok (false, db)
]

unfoldable pub found_token : Option (Text × OneTimeTokenRow) → Action OneTimeToken
found_token none = raise one_time_token_not_found
found_token (some (id, row)) = do
  purpose ← lift (parse_one_time_token_purpose row.purpose)
  pure (token_of id row purpose)

-- `if commandTag.RowsAffected() == 0 { return appidentity.ErrOneTimeTokenNotFound }`
unfoldable pub require_token : Bool → Action (Unit {0})
require_token true = pure tt
require_token false = raise one_time_token_not_found

module _ (env : Env) where
  -- `AuthOneTimeTokenRepository.Create`
  unfoldable pub create : OneTimeToken → Action (Unit {0})
  create t = execute env database_failure (insert_token t.id (row_of t))

  -- `AuthOneTimeTokenRepository.FindActiveByHash`
  unfoldable pub find_active_by_hash : OneTimeTokenPurpose → Text → ℕ → Action OneTimeToken
  find_active_by_hash purpose hash now = do
    row ←
        execute env database_failure
          λ db. ok (find_row (is_active_with purpose hash now) db.one_time_tokens, db)
    found_token row

  -- `AuthOneTimeTokenRepository.MarkUsed`
  unfoldable pub mark_used : Text → ℕ → Action (Unit {0})
  mark_used id at = do
    affected ← execute env database_failure (use_token id at)
    require_token affected
