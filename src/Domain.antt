-- ===== src/Domain.antt =====
-- internal/domain: the values of the program and the rules that they keep.
pub mod Errors
pub mod Money
pub mod Transaction
pub mod Account
pub mod Identity
