-- ===== src/Infra/AccountRepository.antt =====
-- internal/infra/postgres/account_repository.go: the statements on `accounts`. The unique index
-- ux_accounts_user_name_active is the database's: it is a reply to a statement.
pub mod Laws
pub mod Listing
use moneo_backend.Common.{
  ℕ, Bool, true, false, not, ◌&&◌, Text, text_eq, trim_space, Option, none, some, ok, err,
  if◌then◌else◌, ◌==◌, Result, List, [], ◌∷◌, all,
}
use moneo_backend.Common
use moneo_backend.Domain.Errors.{
  Outcome, database_failure, account_not_found, concurrent_account_update,
  duplicate_active_account_name,
}
use moneo_backend.Domain.Money.{
  Currency, currency_text, parse_currency, currency_of, is_supported_currency,
}
use moneo_backend.Domain.Account.{
  Account, AccountType, account_type_text, parse_account_type, new_account, account_type_of,
  is_supported_account_type,
}
use moneo_backend.Infra.Table.{Table, lookup, insert}
use moneo_backend.Infra.Database.{
  AccountRow, Database, Env, Action, pure, raise, lift, ◌>>=◌, execute,
}

-- the columns of an account: its currency is that of its balance
unfoldable pub row_of : Account → AccountRow
row_of a = record {
  user_id = a.user_id;
  name = a.name;
  type_column = account_type_text a.account_type;
  currency = currency_text a.balance.currency;
  balance_minor = a.balance.minor_units;
  initial_balance_minor = a.initial_balance.minor_units;
  include_in_net_worth = a.include_in_net_worth;
  include_in_daily_budget = a.include_in_daily_budget;
  archived_at = a.archived_at;
  created_at = a.created_at;
  updated_at = a.updated_at;
}

-- the parameters that `scanAccount` makes of a row and of its parsed columns
unfoldable pub params_of : Text → AccountRow → AccountType → Currency → Account
params_of id row account_type currency = record {
  id = id;
  user_id = row.user_id;
  name = row.name;
  account_type = account_type;
  balance = record { minor_units = row.balance_minor; currency = currency };
  initial_balance = record { minor_units = row.initial_balance_minor; currency = currency };
  include_in_net_worth = row.include_in_net_worth;
  include_in_daily_budget = row.include_in_daily_budget;
  archived_at = row.archived_at;
  created_at = row.created_at;
  updated_at = row.updated_at;
}

-- `scanAccount`, after the columns are read
unfoldable pub scan_account : Text → AccountRow → Outcome Account
scan_account id row = Common.◌>>=◌ (parse_account_type (trim_space row.type_column)) λ t.
    Common.◌>>=◌ (parse_currency (trim_space row.currency)) λ c. new_account (params_of id row t c)

-- the CHECK constraints of the table `accounts`
unfoldable pub passes_checks : AccountRow → Bool
passes_checks row =
    not (all (λ c. c == 0x20) row.name)
    && is_supported_account_type (account_type_of row.type_column)
    && is_supported_currency (currency_of row.currency)

-- the INSERT statement: the id is the primary key
unfoldable pub insert_account : Text → AccountRow → Database → Outcome (Unit {0} × Database)
insert_account id row db = elim (lookup id db.accounts) [
  | none ↦
      if passes_checks row
      then ok (tt, record db { accounts = insert id row db.accounts })
      else err database_failure
  | some old ↦ err database_failure
]

-- `WHERE id = $1 AND user_id = $2`
unfoldable pub select_account : Text → Text → Database → Option AccountRow
select_account user_id id db = elim (lookup id db.accounts) [
  | none ↦ none
  | some row ↦ if text_eq row.user_id user_id then some row else none
]

-- the SET clause of the UPDATE statement of `UpdateByID`: currency and archived_at stay
unfoldable pub rewrite : AccountRow → Account → AccountRow
rewrite row a = record row {
  name = a.name;
  type_column = account_type_text a.account_type;
  balance_minor = a.balance.minor_units;
  initial_balance_minor = a.initial_balance.minor_units;
  include_in_net_worth = a.include_in_net_worth;
  include_in_daily_budget = a.include_in_daily_budget;
  updated_at = a.updated_at;
}

-- the UPDATE statement of `UpdateByID`, and whether it affects a row
unfoldable pub update_account : Account → ℕ → Database → Outcome (Bool × Database)
update_account a expected db = elim (select_account a.user_id a.id db) [
  | none ↦ ok (false, db)
  | some row ↦
      if not (row.updated_at == expected)
      then ok (false, db)
      else if passes_checks (rewrite row a)
      then ok (true, record db { accounts = insert a.id (rewrite row a) db.accounts })
      else err database_failure
]

is_active : AccountRow → Bool
is_active row = elim row.archived_at [ none ↦ true | some at ↦ false ]

-- the UPDATE statement of `ArchiveByID`, for a row that is not archived
unfoldable pub archive_account : Text → Text → ℕ → Database → Outcome (Bool × Database)
unfolding is_active
archive_account user_id id at db = elim (select_account user_id id db) [
  | none ↦ ok (false, db)
  | some row ↦
      if is_active row
      then ok (
        true,
        record db {
          accounts = insert id (record row { archived_at = some at; updated_at = at }) db.accounts;
        },
      )
      else ok (false, db)
]

-- the UPDATE statement of `RestoreByID`
unfoldable pub restore_account : Text → Text → ℕ → Database → Outcome (Bool × Database)
restore_account user_id id at db = elim (select_account user_id id db) [
  | none ↦ ok (false, db)
  | some row ↦ ok (
    true,
    record db {
      accounts = insert id (record row { archived_at = none; updated_at = at }) db.accounts;
    },
  )
]

unfoldable pub scan_found : Text → Option AccountRow → Action Account
scan_found id none = raise account_not_found
scan_found id (some row) = lift (scan_account id row)

-- the answer to an UPDATE without effect, by what `existsByID` finds
unfoldable pub missed_update : Option AccountRow → Action (Unit {0})
missed_update none = raise account_not_found
missed_update (some row) = raise concurrent_account_update

-- `if commandTag.RowsAffected() == 0 { return ErrAccountNotFound }`
unfoldable pub require_affected : Bool → Action (Unit {0})
require_affected true = pure tt
require_affected false = raise account_not_found

module _ (env : Env) where
  -- `AccountRepository.Create`
  unfoldable pub create : Account → Action (Unit {0})
  create a = execute env duplicate_active_account_name (insert_account a.id (row_of a))

  -- `AccountRepository.FindByID`
  unfoldable pub find_by_id : Text → Text → Action Account
  find_by_id user_id id = do
    row ← execute env database_failure (λ db. ok (select_account user_id id db, db))
    scan_found id row

  -- an UPDATE without effect is followed by `existsByID`
  unfoldable pub report_missed_update : Text → Text → Bool → Action (Unit {0})
  report_missed_update user_id id true = pure tt
  report_missed_update user_id id false = do
    row ← execute env database_failure (λ db. ok (select_account user_id id db, db))
    missed_update row

  -- `AccountRepository.UpdateByID`
  unfoldable pub update_by_id : Account → ℕ → Action (Unit {0})
  update_by_id a expected = do
    affected ← execute env duplicate_active_account_name (update_account a expected)
    report_missed_update a.user_id a.id affected

  -- `AccountRepository.ArchiveByID`
  unfoldable pub archive_by_id : Text → Text → ℕ → Action (Unit {0})
  archive_by_id user_id id at = do
    affected ← execute env database_failure (archive_account user_id id at)
    require_affected affected

  -- `AccountRepository.RestoreByID`
  unfoldable pub restore_by_id : Text → Text → ℕ → Action (Unit {0})
  restore_by_id user_id id at = do
    affected ← execute env duplicate_active_account_name (restore_account user_id id at)
    require_affected affected
