-- ===== src/Examples.antt =====
-- The theorems at concrete inputs.
pub mod Fixtures
pub mod Environments
pub mod Feeds
pub mod Fetching
pub mod Articles
pub mod Ingesting
pub mod Pages
pub mod Console
pub mod Packs
pub mod Parsing
pub mod Plain
pub mod Public
