-- ===== src/Gateway.antt =====
-- platform/gateway: what every request passes, security.py.
pub mod Security
pub mod RateLimit
mod Tests
