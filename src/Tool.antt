-- ===== src/Tool.antt =====
-- The life of one tool call, the registry of call ids and the budget of an agent run:
-- crates/core/src/tool.rs.
pub mod Invocation
pub mod Registry
pub mod Budget
pub mod Tests
