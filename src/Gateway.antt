-- ===== src/Gateway.antt =====
-- internal/gitai/gateway: the events that an agent produces itself.
pub mod Cron
