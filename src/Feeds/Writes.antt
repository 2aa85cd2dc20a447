-- ===== src/Feeds/Writes.antt =====
-- backend/internal/store/feeds.go: the statements that change one row of feeds, and the events and
-- runs that they record.
use afghanistan_news.Base.{
  ℕ, ◌+◌, ◌*◌, String, Bool, true, false, Option, none, some, List, [], ◌∷◌, ◌++◌, ltb, str_eq,
  if◌then◌else◌, update_where,
}
use afghanistan_news.Model.{Feed, PollTier, HealthStatus, unknown, disabled, hour}

pub data EventType : Type 0 where
  fetch_ok not_modified http_error timeout response_too_large parser_error_event : EventType
  rate_limited_event security_blocked circuit_open : EventType

-- A row of feed_health_events.
pub record HealthEvent : Type 0 where
  pub feed_id : String
  pub checked_at : ℕ
  pub http_status : Option ℕ
  pub parse_ok : Bool
  pub item_count : ℕ
  pub event_type : EventType

-- A row of feed_fetch_runs; `ok` is whether result is "OK".
pub record FetchRun : Type 0 where
  pub feed_id : String
  pub result : String
  pub http_status : Option ℕ
  pub bytes_received : ℕ
  pub items_seen : ℕ
  pub items_inserted : ℕ
  pub duplicates : ℕ

pub record FeedDb : Type 0 where
  pub feeds : List Feed
  pub events : List HealthEvent
  pub runs : List FetchRun

-- UPDATE feeds SET … WHERE id = $1
unfoldable pub update_feed : String → (Feed → Feed) → FeedDb → FeedDb
update_feed id f db = record db { feeds = update_where (λ (r : Feed). str_eq r.id id) f db.feeds }

-- COALESCE(NULLIF(new, ''), old)
abbrev pub keep_if_empty : String → String → String
keep_if_empty new old = if str_eq new "" then old else new

abbrev pub or_else {ℓ} : {A : Type ℓ} → Option A → Option A → Option A
or_else none old = old
or_else (some a) old = some a

-- hs in MarkFeedFailure and RecordFetchRun: a status of 0 is stored as NULL.
abbrev pub status_value : ℕ → Option ℕ
status_value n = if ltb 0 n then some n else none

unfoldable pub released : ℕ → ℕ → Feed → Feed
released next_poll now f = record f {
  lease_owner = none;
  lease_until = none;
  next_poll_at = some next_poll;
  last_checked_at = some now;
  updated_at = now;
}

unfoldable pub release_feed : String → ℕ → ℕ → FeedDb → FeedDb
unfolding update_feed released
release_feed id next_poll now = update_feed id (released next_poll now)

pub record Success : Type 0 where
  pub http_status : ℕ
  pub etag : String
  pub last_modified : String
  pub newest_item : Option ℕ
  pub item_count : ℕ
  pub score : ℕ
  pub status : HealthStatus
  pub event_type : EventType

unfoldable pub succeeded : Success → ℕ → Feed → Feed
succeeded s now f = record f {
  health_status = s.status;
  health_score = s.score;
  consecutive_failures = 0;
  etag = keep_if_empty s.etag f.etag;
  last_modified = keep_if_empty s.last_modified f.last_modified;
  last_success_at = some now;
  last_checked_at = some now;
  newest_item_at = or_else s.newest_item f.newest_item_at;
  updated_at = now;
}

unfoldable pub mark_feed_success : String → Success → ℕ → FeedDb → FeedDb
unfolding update_feed succeeded
mark_feed_success id s now db = record (update_feed id (succeeded s now) db) {
  events =
      db.events
      ++ record {
        feed_id = id;
        checked_at = now;
        http_status = some s.http_status;
        parse_ok = true;
        item_count = s.item_count;
        event_type = s.event_type;
      }
        ∷ [];
}

-- The code of a failure; `http_code n` is the text "HTTP_n".
pub data ErrorCode : Type 0 where
  http_error_code parser_error_code ssrf_blocked timeout_code response_guard : ErrorCode
  html_response circuit_open_code : ErrorCode
  http_code : ℕ → ErrorCode

pub record Failure : Type 0 where
  pub http_status : ℕ
  pub event_type : EventType
  pub error_code : ErrorCode
  pub failures : ℕ
  pub score : ℕ
  pub status : HealthStatus
  pub next_poll : ℕ

unfoldable pub failed : Failure → ℕ → Feed → Feed
failed x now f = record f {
  health_status = x.status;
  health_score = x.score;
  consecutive_failures = x.failures;
  last_checked_at = some now;
  next_poll_at = some x.next_poll;
  lease_owner = none;
  lease_until = none;
  updated_at = now;
}

unfoldable pub mark_feed_failure : String → Failure → ℕ → FeedDb → FeedDb
unfolding update_feed failed
mark_feed_failure id x now db = record (update_feed id (failed x now) db) {
  events =
      db.events
      ++ record {
        feed_id = id;
        checked_at = now;
        http_status = status_value x.http_status;
        parse_ok = false;
        item_count = 0;
        event_type = x.event_type;
      }
        ∷ [];
}

unfoldable pub record_fetch_run : FetchRun → FeedDb → FeedDb
record_fetch_run run db = record db { runs = db.runs ++ run ∷ [] }

abbrev pub year : ℕ
year = 365 * 24 * hour

abbrev pub or_disabled : Bool → HealthStatus
or_disabled enabled = if enabled then unknown else disabled

unfoldable pub toggled : Bool → ℕ → Feed → Feed
toggled enabled now f = record f {
  enabled = enabled;
  health_status = or_disabled enabled;
  next_poll_at = some (if enabled then now else now + year);
  lease_owner = none;
  lease_until = none;
  updated_at = now;
}

unfoldable pub set_feed_enabled : String → Bool → ℕ → FeedDb → FeedDb
unfolding update_feed toggled
set_feed_enabled id enabled now = update_feed id (toggled enabled now)

unfoldable pub update_feed_admin :
    String → ℕ → PollTier → String → String → Bool → ℕ → FeedDb → FeedDb
unfolding update_feed
update_feed_admin id priority tier category_key language enabled now = update_feed id (λ f.
    record f {
      priority = priority;
      poll_tier = tier;
      category_key = keep_if_empty category_key f.category_key;
      language = keep_if_empty language f.language;
      enabled = enabled;
      updated_at = now;
      needs_review = false;
    })

unfoldable pub schedule_feed_now : String → ℕ → FeedDb → FeedDb
unfolding update_feed
schedule_feed_now id now = update_feed id (λ f. record f {
  next_poll_at = some now;
  lease_owner = none;
  lease_until = none;
  needs_review = false;
  updated_at = now;
})
