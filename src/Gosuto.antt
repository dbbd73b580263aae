-- ===== src/Gosuto.antt =====
-- common/spec/gosuto: the configuration of an agent.
pub mod Check
mod Tests
pub mod Types
pub mod Validate
pub mod Workflow
