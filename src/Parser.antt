-- ===== src/Parser.antt =====
-- backend/internal/feed/parser: the tree that is read off the tokens of a document, and the three
-- dialects of feeds that are read off the tree.
pub mod Xml
pub mod Sizes
pub mod XmlLaws
pub mod NestedLaws
pub mod PrefixLaws
pub mod Read
pub mod Items
pub mod Rss
pub mod Atom
pub mod Feed
pub mod AgreeLaws
pub mod BrokenLaws
pub mod FeedLaws
pub mod EscapeLaws
pub mod GuidLaws
