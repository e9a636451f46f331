-- ===== src/Shared.antt =====
-- The packages that the services share (internal/shared).
pub mod Breaker
pub mod HttpClient
pub mod AppErrors
pub mod Limiter
