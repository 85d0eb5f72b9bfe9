-- ===== src/Shell.antt =====
-- The unread output of a shell: crates/tools/src/shell/buffer.rs. The bytes that are appended are
-- those after the terminal normalizer; the texts that are read are their bytes before decoding.
pub mod Buffer
pub mod Boundaries
pub mod Eviction
pub mod Account
pub mod Loss
mod Tests
