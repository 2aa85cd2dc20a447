-- ===== src/Pack.antt =====
-- backend/internal/feed/opml/opml.go and backend/internal/store/imports.go: reading a feed pack, and
-- the import of one.
pub mod Outline
pub mod Parse
pub mod ParseLaws
pub mod CountLaws
pub mod Import
pub mod ImportLaws
pub mod DryRunLaws
