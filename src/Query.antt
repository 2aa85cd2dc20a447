-- ===== src/Query.antt =====
-- backend/internal/store/articles_query.go: the pages of the read API, the diversity of sources and the
-- sections of the home screen.
pub mod Cursor
pub mod CursorLaws
pub mod Filter
pub mod Page
pub mod OrderLaws
pub mod CutLaws
pub mod PageLaws
pub mod Diversity
pub mod DiversityLaws
pub mod TopLaws
pub mod ActiveLaws
