-- ===== src/Api.antt =====
-- backend/internal/httpapi: the limiter of requests, sessions and roles, the handlers of the console
-- that change articles or send pushes, and the public lists.
pub mod RateLimit
pub mod RateLimitLaws
pub mod Session
pub mod SessionLaws
pub mod Console
pub mod ConsoleLaws
pub mod PushSend
pub mod PushSendLaws
pub mod Login
pub mod LoginLaws
pub mod Public
pub mod Pages
pub mod Related
pub mod Caching
pub mod PagesLaws
pub mod RelatedLaws
pub mod Coverage
pub mod CoverageLaws
pub mod CachingLaws
