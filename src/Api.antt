-- ===== src/Api.antt =====
-- The request gates of the API: limits, idempotency and permissions (eyenet/api).
pub mod RateLimit
pub mod Idempotency
pub mod Permissions
