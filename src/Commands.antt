-- ===== src/Commands.antt =====
-- internal/ruriko/commands: the commands that an operator sends in a chat room.
pub mod Router
