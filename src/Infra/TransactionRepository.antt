-- ===== src/Infra/TransactionRepository.antt =====
-- internal/infra/postgres/transaction_repository.go: the statements on `transactions`, with the
-- checks that db/migrations puts on its rows. `fmt.Errorf` around an error keeps the error.
pub mod Scan
pub mod Listing
pub mod Laws
use moneo_backend.Common.{
  ℕ, ◌≡◌, Bool, true, false, not, ◌&&◌, ◌||◌, Text, codes, text_eq, trim_space, is_negative, Option,
  none, some, ok, err, if◌then◌else◌, ◌==◌, Result,
}
use moneo_backend.Common
use moneo_backend.Domain.Errors.{
  Outcome, database_failure, transaction_not_found, concurrent_transaction_update,
  posted_transaction_delete_conflict,
}
use moneo_backend.Domain.Money.{
  Currency, currency_text, currency_of, is_supported_currency, parse_currency,
}
use moneo_backend.Domain.Transaction.{
  Transaction, TransactionType, TransactionStatus, posted, type_text, status_text, type_of,
  status_of, is_supported_type, is_supported_status, parse_transaction_type,
  parse_transaction_status, new_transaction,
}
use moneo_backend.Infra.Table.{lookup, insert, erase}
use moneo_backend.Infra.Database.{
  TransactionRow, Database, Env, Action, pure, raise, lift, ◌>>=◌, execute,
}

-- the columns of a transaction
unfoldable pub row_of : Transaction → TransactionRow
row_of t = record {
  user_id = t.user_id;
  type_column = type_text t.transaction_type;
  status_column = status_text t.status;
  amount_minor = t.amount.minor_units;
  currency = currency_text t.amount.currency;
  occurred_at = t.occurred_at;
  planned_at = t.planned_at;
  account_from_id = t.account_from_id;
  account_to_id = t.account_to_id;
  category_id = t.category_id;
  subcategory_id = t.subcategory_id;
  budget_member_id = none;
  income_source_id = t.income_source_id;
  debt_id = none;
  goal_id = none;
  investment_id = none;
  recurring_payment_id = none;
  comment = t.comment;
  posted_at = t.posted_at;
  cancelled_at = t.cancelled_at;
  created_at = t.created_at;
  updated_at = t.updated_at;
}

-- the parameters that `scanTransaction` makes of a row and of its parsed columns
unfoldable pub params_of :
    Text → TransactionRow → TransactionType → TransactionStatus → Currency → Transaction
params_of id row transaction_type status currency = record {
  id = id;
  user_id = row.user_id;
  transaction_type = transaction_type;
  status = status;
  amount = record { minor_units = row.amount_minor; currency = currency };
  account_from_id = row.account_from_id;
  account_to_id = row.account_to_id;
  category_id = row.category_id;
  subcategory_id = row.subcategory_id;
  income_source_id = row.income_source_id;
  comment = row.comment;
  occurred_at = row.occurred_at;
  planned_at = row.planned_at;
  posted_at = row.posted_at;
  cancelled_at = row.cancelled_at;
  created_at = row.created_at;
  updated_at = row.updated_at;
}

-- `scanTransaction`, after the columns are read
unfoldable pub scan_transaction : Text → TransactionRow → Outcome Transaction
scan_transaction id row = Common.◌>>=◌ (parse_transaction_type (trim_space row.type_column)) λ t.
    Common.◌>>=◌ (parse_transaction_status (trim_space row.status_column)) λ s.
      Common.◌>>=◌ (parse_currency (trim_space row.currency))
        λ c. new_transaction (params_of id row t s c)

is_null : Option Text → Bool
is_null none = true
is_null (some s) = false

differ : Option Text → Option Text → Bool
differ (some a) (some b) = not (text_eq a b)
differ none _ = true
differ (some a) none = true

-- the CHECK constraints of the table `transactions`
unfoldable pub passes_checks : TransactionRow → Bool
unfolding is_null differ
passes_checks row =
    is_supported_type (type_of row.type_column)
    && is_supported_status (status_of row.status_column)
    && is_supported_currency (currency_of row.currency)
    && not (is_negative row.amount_minor)
    && (is_null row.subcategory_id || not (is_null row.category_id))
    && differ row.account_from_id row.account_to_id

-- the INSERT statement: the id is the primary key
unfoldable pub insert_transaction : Text → TransactionRow → Database → Outcome (Unit {0} × Database)
insert_transaction id row db = elim (lookup id db.transactions) [
  | none ↦
      if passes_checks row
      then ok (tt, record db { transactions = insert id row db.transactions })
      else err database_failure
  | some old ↦ err database_failure
]

-- `WHERE id = $1 AND user_id = $2`
unfoldable pub select_transaction : Text → Text → Database → Option TransactionRow
select_transaction user_id id db = elim (lookup id db.transactions) [
  | none ↦ none
  | some row ↦ if text_eq row.user_id user_id then some row else none
]

-- the SET clause of the UPDATE statement
unfoldable pub rewrite : TransactionRow → Transaction → TransactionRow
unfolding row_of
rewrite row t = record (row_of t) { user_id = row.user_id; created_at = row.created_at }

-- the UPDATE statement, and whether it affects a row
unfoldable pub update_transaction : Transaction → ℕ → Database → Outcome (Bool × Database)
update_transaction t expected db = elim (select_transaction t.user_id t.id db) [
  | none ↦ ok (false, db)
  | some row ↦
      if not (row.updated_at == expected)
      then ok (false, db)
      else if passes_checks (rewrite row t)
      then ok (true, record db { transactions = insert t.id (rewrite row t) db.transactions })
      else err database_failure
]

-- the DELETE statement, and whether it affects a row
unfoldable pub delete_transaction : Text → Text → ℕ → Database → Outcome (Bool × Database)
delete_transaction user_id id expected db = elim (select_transaction user_id id db) [
  | none ↦ ok (false, db)
  | some row ↦
      if row.updated_at == expected && not (text_eq row.status_column (codes "posted"))
      then ok (true, record db { transactions = erase id db.transactions })
      else ok (false, db)
]

-- the answer to an UPDATE without effect, by what `existsByID` finds
unfoldable pub missed_update : Option TransactionRow → Action (Unit {0})
missed_update none = raise transaction_not_found
missed_update (some row) = raise concurrent_transaction_update

-- the answer to a DELETE without effect, by the status that `statusByID` finds
delete_conflict : TransactionStatus → Action (Unit {0})
delete_conflict posted = raise posted_transaction_delete_conflict
delete_conflict _ = raise concurrent_transaction_update

unfoldable pub missed_delete : Option TransactionRow → Action (Unit {0})
unfolding delete_conflict
missed_delete none = raise transaction_not_found
missed_delete (some row) = do
  status ← lift (parse_transaction_status (trim_space row.status_column))
  delete_conflict status

module _ (env : Env) where
  -- `TransactionRepository.Create`
  unfoldable pub create : Transaction → Action (Unit {0})
  create t = execute env database_failure (insert_transaction t.id (row_of t))

  unfoldable pub scan_found : Text → Option TransactionRow → Action Transaction
  scan_found id none = raise transaction_not_found
  scan_found id (some row) = lift (scan_transaction id row)

  -- `TransactionRepository.FindByID`
  unfoldable pub find_by_id : Text → Text → Action Transaction
  find_by_id user_id id = do
    row ← execute env database_failure (λ db. ok (select_transaction user_id id db, db))
    scan_found id row

  -- an UPDATE without effect is followed by `existsByID`
  unfoldable pub report_missed_update : Text → Text → Bool → Action (Unit {0})
  report_missed_update user_id id true = pure tt
  report_missed_update user_id id false = do
    row ← execute env database_failure (λ db. ok (select_transaction user_id id db, db))
    missed_update row

  -- `TransactionRepository.UpdateByID`
  unfoldable pub update_by_id : Transaction → ℕ → Action (Unit {0})
  update_by_id t expected = do
    affected ← execute env database_failure (update_transaction t expected)
    report_missed_update t.user_id t.id affected

  -- a DELETE without effect is followed by `statusByID`
  unfoldable pub report_missed_delete : Text → Text → Bool → Action (Unit {0})
  report_missed_delete user_id id true = pure tt
  report_missed_delete user_id id false = do
    row ← execute env database_failure (λ db. ok (select_transaction user_id id db, db))
    missed_delete row

  -- `TransactionRepository.DeleteByID`
  unfoldable pub delete_by_id : Text → Text → ℕ → Action (Unit {0})
  delete_by_id user_id id expected = do
    affected ← execute env database_failure (delete_transaction user_id id expected)
    report_missed_delete user_id id affected
