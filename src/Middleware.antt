-- ===== src/Middleware.antt =====
-- internal/middleware: what stands between the router and the handlers.
pub mod RateLimit
pub mod RealIp
pub mod Sessions
pub mod Metrics
pub mod Users
pub mod MetricsGuard
pub mod Csrf
