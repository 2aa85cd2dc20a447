-- ===== src/Text.antt =====
-- backend/internal/feed/normalize: the canonical form of a URL, the sanitizer of HTML, and plain texts.
pub mod UrlQuery
pub mod UrlQueryLaws
pub mod Canonical
pub mod CanonicalLaws
pub mod Sanitize
pub mod SanitizeLaws
pub mod NestingLaws
pub mod Plain
pub mod PlainLaws
