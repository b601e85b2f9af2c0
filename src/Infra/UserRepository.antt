-- ===== src/Infra/UserRepository.antt =====
-- internal/infra/postgres/auth_repositories.go: the statements on `users`, with the constraints of
-- db/migrations: the id is the primary key, `normalized_email` is generated as
-- `lower(trim(email))`, and the index uq_users_normalized_email is unique over it.
pub mod Laws
use moneo_backend.Common.{
  ℕ, Bool, true, false, Text, text_eq, Option, none, some, [], ◌∷◌, ok, err, if◌then◌else◌, ◌==◌,
}
use moneo_backend.Domain.Errors.{Outcome, database_failure, duplicate_email, user_not_found}
use moneo_backend.Domain.Identity.{User}
use moneo_backend.Domain.Identity.Credentials.{Platform}
use moneo_backend.Infra.Table.{Table, lookup, insert, find_row}
use moneo_backend.Infra.Database.{UserRow, Database, Env, Action, pure, raise, ◌>>=◌, execute}

-- the SQL function `trim`, which takes spaces away and nothing else
unfoldable pub trim_left_spaces : Text → Text
trim_left_spaces [] = []
trim_left_spaces (c ∷ s) = if c == 0x20 then trim_left_spaces s else c ∷ s

cons_unless_end : ℕ → Text → Text
cons_unless_end c [] = if c == 0x20 then [] else c ∷ []
cons_unless_end c (d ∷ t) = c ∷ d ∷ t

unfoldable pub trim_right_spaces : Text → Text
unfolding cons_unless_end
trim_right_spaces [] = []
trim_right_spaces (c ∷ s) = cons_unless_end c (trim_right_spaces s)

-- the generated column `normalized_email`
unfoldable pub generated_email : Platform → Text → Text
generated_email platform email = platform.sql_lower (trim_right_spaces (trim_left_spaces email))

unfoldable pub row_of : Platform → User → UserRow
row_of platform user = record {
  email = user.email;
  normalized_email = generated_email platform user.email;
  password_hash = user.password_hash;
  email_verified = user.email_verified;
  created_at = user.created_at;
  updated_at = user.updated_at;
}

unfoldable pub user_of : Text → UserRow → User
user_of id row = record {
  id = id;
  email = row.email;
  normalized_email = row.normalized_email;
  password_hash = row.password_hash;
  email_verified = row.email_verified;
  created_at = row.created_at;
  updated_at = row.updated_at;
}

unfoldable pub has_email : Text → UserRow → Bool
has_email normalized row = text_eq row.normalized_email normalized

-- the INSERT statement
unfoldable pub insert_user : Text → UserRow → Database → Outcome (Unit {0} × Database)
insert_user id row db = elim (lookup id db.users) [
  | some old ↦ err database_failure
  | none ↦ elim (find_row (has_email row.normalized_email) db.users) [
    | some old ↦ err duplicate_email
    | none ↦ ok (tt, record db { users = insert id row db.users })
  ]
]

-- an UPDATE statement `WHERE id = $1`, and whether it affects a row
unfoldable pub rewrite_user : (UserRow → UserRow) → Text → Database → Outcome (Bool × Database)
rewrite_user f id db = elim (lookup id db.users) [
  | none ↦ ok (false, db)
  | some row ↦ ok (true, record db { users = insert id (f row) db.users })
]

-- the SET clauses of `UpdatePassword` and of `MarkEmailVerified`
unfoldable pub with_password : Text → ℕ → UserRow → UserRow
with_password password_hash at row = record row { password_hash = password_hash; updated_at = at }

unfoldable pub with_verified_email : ℕ → UserRow → UserRow
with_verified_email at row = record row { email_verified = true; updated_at = at }

unfoldable pub found_user : Option (Text × UserRow) → Action User
found_user none = raise user_not_found
found_user (some (id, row)) = pure (user_of id row)

unfoldable pub with_id : Text → Option UserRow → Option (Text × UserRow)
with_id id none = none
with_id id (some row) = some (id, row)

-- `if commandTag.RowsAffected() == 0 { return appidentity.ErrUserNotFound }`
unfoldable pub require_user : Bool → Action (Unit {0})
require_user true = pure tt
require_user false = raise user_not_found

module _ (env : Env) where
  -- `AuthUserRepository.Create`
  unfoldable pub create : Platform → User → Action (Unit {0})
  create platform user = execute env duplicate_email (insert_user user.id (row_of platform user))

  -- `AuthUserRepository.FindByNormalizedEmail`
  unfoldable pub find_by_normalized_email : Text → Action User
  find_by_normalized_email normalized = do
    row ← execute env database_failure (λ db. ok (find_row (has_email normalized) db.users, db))
    found_user row

  -- `AuthUserRepository.FindByID`
  unfoldable pub find_by_id : Text → Action User
  find_by_id id = do
    row ← execute env database_failure (λ db. ok (with_id id (lookup id db.users), db))
    found_user row

  -- `AuthUserRepository.UpdatePassword`
  unfoldable pub update_password : Text → Text → ℕ → Action (Unit {0})
  update_password id password_hash at = do
    affected ← execute env database_failure (rewrite_user (with_password password_hash at) id)
    require_user affected

  -- `AuthUserRepository.MarkEmailVerified`
  unfoldable pub mark_email_verified : Text → ℕ → Action (Unit {0})
  mark_email_verified id at = do
    affected ← execute env database_failure (rewrite_user (with_verified_email at) id)
    require_user affected
