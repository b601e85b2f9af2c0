-- ===== src/App/Services.antt =====
-- The services of App/Transactions.antt and the ledger.
pub mod Keep
pub mod Rewrites
pub mod Patches
pub mod Atomic
pub mod Progress
pub mod Isolation
