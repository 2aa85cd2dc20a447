-- ===== src/Api/Caching.antt =====
-- backend/internal/httpapi/caching.go: the replies with a tag.
use afghanistan_news.Base.{[], ◌∷◌, ◌++◌, take, if◌then◌else◌}
use afghanistan_news.Query.Cursor.{Bytes}
use afghanistan_news.Api.Session.{bytes_eq}

-- etagOf: the first 16 bytes of the SHA-256 of the body, in quotes.
unfoldable pub etag_of : (Bytes → Bytes) → Bytes → Bytes
etag_of sha256_hex body = 34 ∷ (take 32 (sha256_hex body) ++ (34 ∷ []))

-- The reply of writeJSONCached and writeXMLCached to a request with an If-None-Match header.
pub data Cached : Type 0 where
  not_modified : Bytes → Cached
  full : Bytes → Bytes → Cached

unfoldable pub write_cached : (Bytes → Bytes) → Bytes → Bytes → Cached
unfolding etag_of
write_cached sha256_hex if_none_match body =
    let etag = etag_of sha256_hex body in
    if bytes_eq if_none_match etag then not_modified etag else full etag body
