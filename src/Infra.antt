-- ===== src/Infra.antt =====
-- internal/infra/postgres: the tables, the statements of the repositories, and transactions.
pub mod Table
pub mod Database
pub mod TransactionRepository
pub mod AccountRepository
pub mod UserRepository
pub mod SessionRepository
pub mod OneTimeTokenRepository
pub mod Security
