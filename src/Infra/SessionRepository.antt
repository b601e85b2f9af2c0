-- ===== src/Infra/SessionRepository.antt =====
-- internal/infra/postgres/auth_repositories.go: the statements on `sessions`, with the constraints
-- of db/migrations: the id is the primary key, the user stands in `users`, and the index
-- uq_sessions_active_refresh_token_hash is unique over the sessions that are not revoked.
pub mod Laws
use moneo_backend.Common.{
  ℕ, Bool, true, false, not, ◌&&◌, Text, text_eq, Option, none, some, List, [], ◌∷◌, ok, err, ltb,
  if◌then◌else◌,
}
use moneo_backend.Domain.Errors.{
  Outcome, database_failure, duplicate_session_refresh_token, session_not_found,
}
use moneo_backend.Domain.Identity.{Session}
use moneo_backend.Infra.Table.{Table, lookup, insert, find_row, select_rows, map_rows}
use moneo_backend.Infra.Database.{SessionRow, Database, Env, Action, pure, raise, ◌>>=◌, execute}

unfoldable pub row_of : Session → SessionRow
row_of s = record {
  user_id = s.user_id;
  refresh_token_hash = s.refresh_token_hash;
  user_agent = s.user_agent;
  ip = s.ip;
  device_name = s.device_name;
  created_at = s.created_at;
  last_used_at = none;
  expires_at = s.expires_at;
  revoked_at = s.revoked_at;
}

unfoldable pub session_of : Text → SessionRow → Session
session_of id row = record {
  id = id;
  user_id = row.user_id;
  refresh_token_hash = row.refresh_token_hash;
  user_agent = row.user_agent;
  ip = row.ip;
  device_name = row.device_name;
  created_at = row.created_at;
  last_used_at = row.last_used_at;
  expires_at = row.expires_at;
  revoked_at = row.revoked_at;
}

-- `revoked_at IS NULL`
unfoldable pub is_not_revoked : SessionRow → Bool
is_not_revoked row = elim row.revoked_at [ none ↦ true | some at ↦ false ]

-- `revoked_at IS NULL AND expires_at > $2`
unfoldable pub is_live : ℕ → SessionRow → Bool
is_live now row = is_not_revoked row && ltb now row.expires_at

unfoldable pub has_hash : Text → SessionRow → Bool
has_hash hash row = text_eq row.refresh_token_hash hash

-- what the unique index looks for
unfoldable pub holds_hash : Text → SessionRow → Bool
holds_hash hash row = is_not_revoked row && has_hash hash row

-- the INSERT statement, for a row that is not revoked
unfoldable pub insert_session : Text → SessionRow → Database → Outcome (Unit {0} × Database)
insert_session id row db = elim (lookup id db.sessions) [
  | some old ↦ err database_failure
  | none ↦ elim (lookup row.user_id db.users) [
    | none ↦ err database_failure
    | some user ↦ elim (find_row (holds_hash row.refresh_token_hash) db.sessions) [
      | some old ↦ err duplicate_session_refresh_token
      | none ↦ ok (tt, record db { sessions = insert id row db.sessions })
    ]
  ]
]

-- an UPDATE statement on one row that passes a test, and whether it affects the row
unfoldable pub rewrite_session :
    (SessionRow → Bool) → (SessionRow → SessionRow) → Text → Database → Outcome (Bool × Database)
rewrite_session p f id db = elim (lookup id db.sessions) [
  | none ↦ ok (false, db)
  | some row ↦
      if p row
      then ok (true, record db { sessions = insert id (f row) db.sessions })
      else ok (false, db)
]

-- the SET clauses
unfoldable pub touched : ℕ → SessionRow → SessionRow
touched at row = record row { last_used_at = some at }

unfoldable pub revoked : ℕ → SessionRow → SessionRow
revoked at row = record row { revoked_at = some at }

-- the UPDATE statement of `RevokeAllByUserID`
unfoldable pub revoked_if_live : Text → ℕ → SessionRow → SessionRow
revoked_if_live user_id at row =
    if text_eq row.user_id user_id && is_live at row then revoked at row else row

unfoldable pub revoke_sessions : Text → ℕ → Database → Outcome (Unit {0} × Database)
revoke_sessions user_id at db =
    ok (tt, record db { sessions = map_rows (revoked_if_live user_id at) db.sessions })

unfoldable pub is_live_of : Text → ℕ → SessionRow → Bool
is_live_of user_id now row = text_eq row.user_id user_id && is_live now row

unfoldable pub sessions_of : Table SessionRow → List Session
sessions_of [] = []
sessions_of ((id, row) ∷ rows) = session_of id row ∷ sessions_of rows

-- `ORDER BY created_at DESC`; of equal times the one that was inserted first comes first
unfoldable pub insert_by_created_at : Session → List Session → List Session
insert_by_created_at s [] = s ∷ []
insert_by_created_at s (t ∷ rest) =
    let later = insert_by_created_at s rest in
    if ltb s.created_at t.created_at then t ∷ later else s ∷ t ∷ rest

unfoldable pub newest_first : List Session → List Session
newest_first [] = []
newest_first (s ∷ rest) = insert_by_created_at s (newest_first rest)

unfoldable pub found_session : Option (Text × SessionRow) → Action Session
found_session none = raise session_not_found
found_session (some (id, row)) = pure (session_of id row)

unfoldable pub with_id : Text → Option SessionRow → Option (Text × SessionRow)
with_id id none = none
with_id id (some row) = some (id, row)

-- `if commandTag.RowsAffected() == 0 { return appidentity.ErrSessionNotFound }`
unfoldable pub require_session : Bool → Action (Unit {0})
require_session true = pure tt
require_session false = raise session_not_found

module _ (env : Env) where
  -- `AuthSessionRepository.Create`
  unfoldable pub create : Session → Action (Unit {0})
  create s = execute env duplicate_session_refresh_token (insert_session s.id (row_of s))

  -- `AuthSessionRepository.FindByRefreshTokenHash`: the first of the rows with the hash
  unfoldable pub find_by_refresh_token_hash : Text → Action Session
  find_by_refresh_token_hash hash = do
    row ← execute env database_failure (λ db. ok (find_row (has_hash hash) db.sessions, db))
    found_session row

  -- `AuthSessionRepository.FindByID`
  unfoldable pub find_by_id : Text → Action Session
  find_by_id id = do
    row ← execute env database_failure (λ db. ok (with_id id (lookup id db.sessions), db))
    found_session row

  -- `AuthSessionRepository.ListActiveByUserID`
  unfoldable pub list_active_by_user_id : Text → ℕ → Action (List Session)
  list_active_by_user_id user_id now =
      execute env database_failure
        λ db. ok (newest_first (sessions_of (select_rows (is_live_of user_id now) db.sessions)), db)

  -- `AuthSessionRepository.TouchLastUsedAt`
  unfoldable pub touch_last_used_at : Text → ℕ → Action (Unit {0})
  touch_last_used_at id at = do
    affected ← execute env database_failure (rewrite_session (is_live at) (touched at) id)
    require_session affected

  -- `AuthSessionRepository.RevokeByID`
  unfoldable pub revoke_by_id : Text → ℕ → Action (Unit {0})
  revoke_by_id id at = do
    affected ← execute env database_failure (rewrite_session is_not_revoked (revoked at) id)
    require_session affected

  -- `AuthSessionRepository.RevokeAllByUserID`
  unfoldable pub revoke_all_by_user_id : Text → ℕ → Action (Unit {0})
  revoke_all_by_user_id user_id at = execute env database_failure (revoke_sessions user_id at)
