-- ===== src/Lib.antt =====
-- The core of the personal-finance backend: amounts of money, transactions and accounts,
-- the services that create, post, cancel, patch, duplicate and delete transactions, one by one or in
-- bulk, and create, change, archive, restore, list and sum up accounts, the repositories and database
-- transactions below them, and the jobs that repair and verify the table of transactions. A request
-- runs a service; a service for transactions opens a database transaction by `TxManager.WithinTx`,
-- reads and writes the tables `transactions` and `accounts` through the repositories, builds entities
-- by the domain constructors, and moves the balances of the accounts by
-- `applyTransactionBalanceEffect`. A service for accounts writes by a single statement, and a job works
-- on the tables directly, batch by batch. The services for users register them and log them in, keep
-- their sessions, let in who shows an access token of a session, reset passwords and verify emails
-- by tokens that serve once; they work on the tables `users`, `sessions` and `auth_one_time_tokens`,
-- and take the issuer of tokens, the hasher of passwords and the notifiers as interfaces.
--
-- Which file models which part:
--   Domain/Errors: the sentinel errors of internal/domain, internal/app and internal/infra;
--   Domain/Money and Domain/Money/Decimal: internal/domain/shared/money.go, currency.go and
--     money_decimal.go;
--   Domain/Account: internal/domain/accounting/account.go;
--   Domain/Transaction: internal/domain/transactions/transaction.go;
--   Infra/Table and Infra/Database: the tables of db/migrations, the world of a request, and
--     internal/infra/postgres/tx.go;
--   Infra/TransactionRepository: internal/infra/postgres/transaction_repository.go;
--   Infra/AccountRepository: internal/infra/postgres/account_repository.go;
--   Domain/Identity: internal/domain/identity;
--   Infra/UserRepository, Infra/SessionRepository and Infra/OneTimeTokenRepository:
--     internal/infra/postgres/auth_repositories.go;
--   Infra/Security: internal/infra/security/token_service.go;
--   App/Identity: service.go, auth_flow.go and access_auth.go of internal/app/identity; its
--     Interfaces are the interfaces of that directory, with the laws that clients rely on;
--   App/Identity/PostMvp: post_mvp.go of the same directory;
--   App/Effect: `applyTransactionBalanceEffect` of internal/app/accounting/transactions.go;
--   App/Transactions: the services of that file;
--   App/Bulk: internal/app/accounting/transactions_bulk.go;
--   App/Accounts: create_account.go, get_account.go, update_account.go, archive_account.go and
--     restore_account.go of the same directory;
--   Infra/AccountRepository/Listing and App/Listing: `ListByUserID` of the account repository,
--     list_accounts.go and get_accounts_summary.go;
--   Infra/TransactionRepository/Listing and App/Queries: `ListByUserID` and `CountByUserID` of the
--     transaction repository, `ListByUser` and `CountByUser` of transactions.go; the functions
--     `lower` and `LIKE` of the database and `strings.ToLower` are parameters;
--   Ops/Repair: internal/ops/repair/transactions_format_job.go;
--   Ops/Verification: internal/ops/repair/transactions_verification_job.go.
-- The children of a module hold the theorems on it. App/Ledger defines the invariant that ties the
-- two tables together; App/Services/Keep, Rewrites and Patches look at the services one by one,
-- App/Services/Atomic at all of them as they are called, Progress at runs without failures, and
-- Isolation at the transactions of other users. App/Identity/Requests has the requests for users and
-- sessions and sequences of them; Moves and Sequences carry a relation from the statements to the
-- sequences, and Later and WellFormed are two such relations. Tests holds runs and concrete instances.
-- Common holds what the modules share: tests, lists, texts, 64-bit words and results.
--
-- How state and values correspond:
--   A function of the program that takes a context is an `Action`: it goes from a `World` to an
--   outcome and a `World`. The world holds the five tables, whether the context carries a
--   transaction (`txContextKey`), and how many calls the request has made to the outside. An `Env`
--   answers these calls by their number: the clock, the generator of ids, and the database, which
--   may carry out a statement, refuse it by a unique index, or fail, at any call; of a COMMIT that
--   it answers by an error, `commit_kept` tells whether it was carried out nevertheless, and any
--   other statement that it answers by an error was not carried out. A statement that is carried
--   out does what its SQL says, CHECK constraints and primary keys included. A foreign key that is
--   violated, a serialization failure and a lost connection are failures that the database may
--   answer; for users, sessions and one-time tokens the unique indexes and the foreign keys are
--   part of the statement as well.
--   An error is its sentinel, the one that `fmt.Errorf` wraps by `%w`; the texts around it are left
--   out. `slices.SortFunc` is an insertion sort.
--   An `int64` is a number below 2 ^ 64 in two's complement, and its arithmetic wraps as in Go. A text
--   is the list of its code points. A nil pointer is `none`. A time is a number at the precision of
--   the column that stores it. `strings.ToLower`, `mail.ParseAddress`, the
--   classes of characters and PostgreSQL's `lower` are parameters. Of the rows that a query without an
--   order may find, it finds the first one that was inserted. An identifier is a text, which a
--   lookup compares as it is: the ids are taken in the canonical form in which PostgreSQL prints them,
--   whose order is that of the ids.
--   One request runs at a time: the statements of a request see the tables that it left.
--
-- Bounds and fuel: `decimal` has fuel for 20 digits, and an `int64` has at most 19; the loop of
-- `int64Pow10` counts its rounds; the loop of the repair job has as fuel one more than the number of
-- rows, since each round but the last reads a row; all else is structural recursion.
--
-- Not modelled: the catalog of categories, the hashing of passwords, the HTTP handlers and the
-- generated API, the baseline and the report of the verification job, start-up and configuration.
-- Interleavings of requests are not modelled.
pub mod Common
pub mod Domain
pub mod Infra
pub mod App
pub mod Ops
pub mod Tests
