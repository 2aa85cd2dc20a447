-- ===== src/Push.antt =====
-- The push notifications: backend/internal/store/push.go and enqueuePush of the ingest pipeline.
pub mod Store
pub mod Topics
pub mod Notify
pub mod NotifyLaws
