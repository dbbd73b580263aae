-- ===== src/Nlp.antt =====
-- internal/ruriko/nlp: the guards around the classification of a message by a language model.
pub mod RateLimiter
pub mod TokenBudget
