-- ===== src/Examples.antt =====
-- Sample instances of what lies outside the repository, and the theorems at concrete inputs.
pub mod Samples
pub mod Limits
pub mod Access
pub mod Accounts
pub mod Records
pub mod Counting
pub mod Stores
pub mod Lives
pub mod Whole
pub mod Histories
pub mod Startup
pub mod Guesses
