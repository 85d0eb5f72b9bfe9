-- ===== src/Protocol.antt =====
-- The data that the components exchange: crates/protocol/src.
pub mod Event
pub mod Json
pub mod Tool
pub mod Runtime
pub mod Request
pub mod Session
pub mod Vault
pub mod Knowledge
