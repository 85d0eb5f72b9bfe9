-- ===== src/Vault.antt =====
-- The vault keeps the wiki in files and changes them by transactions: crates/vault/src.
pub mod Files
pub mod Paths
pub mod Distinct
pub mod Transaction
pub mod Preparing
pub mod Effective
pub mod Staging
pub mod Recoverable
pub mod Applying
pub mod Checking
pub mod Recovery
pub mod Prepared
pub mod Placing
pub mod Crashes
mod Samples
mod Tests
