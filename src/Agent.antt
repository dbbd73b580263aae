-- ===== src/Agent.antt =====
-- internal/gitai/app: what an agent does with a message, and how it calls a tool.
pub mod Dispatch
pub mod Messages
