-- ===== src/Workflow.antt =====
-- internal/gitai/workflow: the protocols that a message or an event starts, and the run of their steps.
pub mod State
pub mod Act
pub mod Match
pub mod Nested
pub mod Run
pub mod Schema
pub mod Step
pub mod Template
mod Tests
