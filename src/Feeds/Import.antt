-- ===== src/Feeds/Import.antt =====
-- backend/internal/store/feeds.go: UpsertFeedFromImport and MarkFeedsMissingFromPack, the statements
-- of a feed-pack import.
use afghanistan_news.Base.{
  ℕ, String, Bool, true, false, not, ◌&&◌, Option, none, some, List, [], ◌∷◌, ◌++◌, str_eq,
  if◌then◌else◌, any, update_where, count_where,
}
use afghanistan_news.Model.{Feed, unknown}
use afghanistan_news.Feeds.Writes.{FeedDb}

pub data Upserted : Type 0 where
  feed_inserted feed_updated : Upserted

-- The row of a new feed: the columns that the statement does not name have their defaults.
unfoldable pub imported : Feed → String → ℕ → Feed
imported f version now = record f {
  health_status = unknown;
  health_score = 100;
  next_poll_at = some now;
  feed_pack_version = some version;
  etag = "";
  last_modified = "";
  last_checked_at = none;
  last_success_at = none;
  newest_item_at = none;
  consecutive_failures = 0;
  needs_review = false;
  lease_owner = none;
  lease_until = none;
  created_at = now;
  updated_at = now;
}

-- SET … of a feed that is known.
unfoldable pub reimported : Feed → String → ℕ → Feed → Feed
reimported f version now r = record r {
  source_id = f.source_id;
  title = f.title;
  xml_url = f.xml_url;
  html_url = f.html_url;
  language = f.language;
  scope = f.scope;
  category_key = f.category_key;
  source_type = f.source_type;
  priority = f.priority;
  poll_tier = f.poll_tier;
  enabled = f.enabled;
  feed_pack_version = some version;
  needs_review = false;
  updated_at = now;
}

abbrev pub has_url : String → Feed → Bool
has_url url r = str_eq r.normalized_xml_url url

-- `none` is the error of an id that is taken by a feed with another URL.
unfoldable pub upsert_feed_from_import : Feed → String → ℕ → FeedDb → Option (FeedDb × Upserted)
unfolding imported reimported
upsert_feed_from_import f version now db =
    if any (has_url f.normalized_xml_url) db.feeds
    then some (
      record db {
        feeds = update_where (has_url f.normalized_xml_url) (reimported f version now) db.feeds;
      },
      feed_updated,
    )
    else if any (λ (r : Feed). str_eq r.id f.id) db.feeds
    then none
    else some (record db { feeds = db.feeds ++ imported f version now ∷ [] }, feed_inserted)

-- feed_pack_version IS NOT NULL AND feed_pack_version <> $3
abbrev pub is_older : String → Option String → Bool
is_older version none = false
is_older version (some v) = not (str_eq v version)

unfoldable pub is_missing : String → List String → Feed → Bool
is_missing version kept r =
    is_older version r.feed_pack_version && not (any (λ u. str_eq u r.normalized_xml_url) kept)

unfoldable pub mark_feeds_missing : String → List String → ℕ → FeedDb → FeedDb × ℕ
unfolding is_missing
mark_feeds_missing version kept now db = (
  record db {
    feeds =
        update_where (is_missing version kept)
          (λ r. record r { needs_review = true; updated_at = now }) db.feeds;
  },
  count_where (is_missing version kept) db.feeds,
)
