-- ===== src/Proposals.antt =====
-- Suggested messages and the decisions on them.
pub mod Lifecycle
mod Tests
pub mod Decide
