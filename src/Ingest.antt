-- ===== src/Ingest.antt =====
-- The ingest pipeline (backend/internal/ingest/pipeline.go).
pub mod Topic
pub mod TopicLaws
pub mod FetchErrors
pub mod FailureLaws
pub mod Items
pub mod Run
pub mod RunLaws
pub mod Process
pub mod ProcessLaws
pub mod Cycle
pub mod CycleLaws
pub mod Reading
