-- ===== src/App.antt =====
-- internal/app: the services for transactions and accounts, and for users and sessions.
pub mod Effect
pub mod Transactions
pub mod Ledger
pub mod Accounts
pub mod Listing
pub mod Bulk
pub mod Services
pub mod Identity
pub mod Queries
