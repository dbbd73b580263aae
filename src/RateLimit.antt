-- ===== src/RateLimit.antt =====
-- The in-memory limiters of the program.
pub mod FixedWindow
