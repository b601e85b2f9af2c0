-- ===== src/Ops.antt =====
-- internal/ops/repair: the jobs that an operator runs on the table of transactions.
pub mod Repair
pub mod Verification
