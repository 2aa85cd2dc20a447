-- ===== src/Model.antt =====
-- backend/internal/model/model.go: the kinds of sources, tiers and health, and the feed record.
mod Kinds
mod Records
pub use Kinds.*
pub use Records.*
unfoldable pub use Kinds.{interval, trust_weight, is_aggregator, parse_source_type}
