-- ===== src/Tests.antt =====
-- Runs of the model on a small database, and the theorems at concrete inputs.
pub mod Data
pub mod Runs
mod Batches
pub mod Listings
pub mod Operations
mod Pages
pub mod Services
pub mod Values
pub mod Identities
pub mod Sessions
pub mod Access
