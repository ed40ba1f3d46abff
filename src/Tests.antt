-- ===== src/Tests.antt =====
-- Runs of the theorems on a small state, batch and read-write set.
pub mod Fixtures
pub mod Scans
pub mod Transactions
pub mod Summaries
pub mod Heights
pub mod Computed
pub mod Caches
pub mod Codecs
pub mod Lists
pub mod Blocks
pub mod Ledgers
mod Restarts
mod Simulations
mod Queries
