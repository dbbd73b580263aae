-- ===== src/Kuze.antt =====
-- internal/ruriko/kuze: links that hand a secret over once.
pub mod Tokens
