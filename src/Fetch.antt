-- ===== src/Fetch.antt =====
-- backend/internal/feed/fetcher: the guarded, limited, circuit-broken HTTP client of the worker.
pub mod Ssrf
pub mod SsrfLaws
pub mod Breaker
pub mod BreakerLaws
pub mod Limiter
pub mod LimiterLaws
pub mod Client
pub mod ClientLaws
