-- ===== src/Ingest/Process.antt =====
-- backend/internal/ingest/pipeline.go: ProcessFeed.
use afghanistan_news.Base.{
  ℕ, suc, ◌+◌, ◌-◌, String, Bool, true, false, ◌&&◌, Option, none, some, List, [], ◌∷◌, ltb, ◌==◌,
  if◌then◌else◌, length,
}
use afghanistan_news.Model.{
  Feed, Candidate, PollTier, HealthStatus, healthy, stale, empty_feed, parser_error,
}
use afghanistan_news.Schedule.{health_score, next_poll_delay}
use afghanistan_news.Articles.Rows.{ArticleDb}
use afghanistan_news.Push.Store.{PushDb}
use afghanistan_news.Push.Notify.{Outside}
use afghanistan_news.Fetch.Client.{Fetched, fetched, fetch_failed, not_modified, Response}
use afghanistan_news.Feeds.Writes.{
  FeedDb, Success, mark_feed_success, mark_feed_failure, FetchRun, record_fetch_run, status_value,
  fetch_ok, not_modified as not_modified_event, parser_error_event, parser_error_code,
}
use afghanistan_news.Ingest.Items.{Language, Options, Moment}
use afghanistan_news.Ingest.Run.{ingest_candidates}
use afghanistan_news.Ingest.FetchErrors.{handle_fetch_error, schedule_next, stale_window}

-- What parser.Parse returns: whether it reports an error, and the candidates it could still read.
pub record Parsed : Type 0 where
  pub failed : Bool
  pub candidates : List Candidate

-- The settings of the worker that ProcessFeed reads.
pub record Worker : Type 0 where
  pub lang : Language
  pub outside : Outside
  pub options : Options
  pub adaptive : Bool
  pub quarantine_after : ℕ
  pub parse : List ℕ → Parsed

-- One visit of a feed: the answer of the fetcher, the number that seeds the jitter, the clock at
-- each write, and the moment of each candidate.
pub record Visit : Type 0 where
  pub answer : Fetched
  pub draw : ℕ
  pub now : ℕ
  pub marked : ℕ
  pub checked : ℕ
  pub scheduled : ℕ
  pub written : ℕ
  pub moment : ℕ → Moment

pub record World : Type 0 where
  pub feeds : FeedDb
  pub articles : ArticleDb
  pub push : PushDb

unfoldable pub newest : List Candidate → Option ℕ → Option ℕ
newest [] best = best
newest (c ∷ cs) best = newest cs (later c.published_at best)
  where
    later : Option ℕ → Option ℕ → Option ℕ
    later none b = b
    later (some t) none = some t
    later (some t) (some b) = if ltb b t then some t else some b

abbrev pub is_stale : PollTier → Option ℕ → ℕ → Bool
is_stale tier none now = false
is_stale tier (some t) now = ltb (stale_window tier) (now - t)

abbrev pub with_moments : (ℕ → Moment) → ℕ → List Candidate → List (Candidate × Moment)
with_moments moment n [] = []
with_moments moment n (c ∷ cs) = (c, moment n) ∷ with_moments moment (suc n) cs

abbrev pub success : ℕ → String → String → Option ℕ → ℕ → ℕ → HealthStatus → Bool → Success
success code etag modified newest items score status fresh = record {
  http_status = code;
  etag = etag;
  last_modified = modified;
  newest_item = newest;
  item_count = items;
  score = score;
  status = status;
  event_type = if fresh then fetch_ok else not_modified_event;
}

abbrev pub run_row : String → String → ℕ → ℕ → ℕ → ℕ → ℕ → FetchRun
run_row id result code bytes seen added dups = record {
  feed_id = id;
  result = result;
  http_status = status_value code;
  bytes_received = bytes;
  items_seen = seen;
  items_inserted = added;
  duplicates = dups;
}

-- 304: the health and the schedule, with the failures that the feed had before.
unfoldable pub process_unchanged : Worker → Feed → Visit → World → World
process_unchanged w feed v db = record db {
  feeds = schedule_next w.adaptive feed 0 feed.consecutive_failures v.draw v.scheduled v.written (
      record_fetch_run (run_row feed.id "NOT_MODIFIED" 304 0 0 0 0) (
        mark_feed_success feed.id
          (success 304 feed.etag feed.last_modified none 0 (health_score 0 true false) healthy
            false)
          v.marked db.feeds));
}

-- The feed that cannot be parsed at all.
unfoldable pub process_unparsed : Worker → Feed → Visit → Response → World → World
process_unparsed w feed v resp db =
    let failures = feed.consecutive_failures + 1 in
    record db {
      feeds =
          record_fetch_run
            (run_row feed.id "PARSER_ERROR" resp.status_code (length resp.body) 0 0 0)
            (mark_feed_failure feed.id
              (record {
                http_status = resp.status_code;
                event_type = parser_error_event;
                error_code = parser_error_code;
                failures = failures;
                score = health_score failures false false;
                status = parser_error;
                next_poll = v.now + next_poll_delay feed.poll_tier failures 0 w.adaptive v.draw;
              })
              v.marked db.feeds);
    }

abbrev pub status_of : ℕ → Bool → HealthStatus
status_of items old = if items == 0 then empty_feed else if old then stale else healthy

unfoldable pub process_parsed : Worker → Feed → Visit → Response → List Candidate → World → World
unfolding newest
process_parsed w feed v resp candidates db =
    let r =
      ingest_candidates w.lang w.outside w.options feed (with_moments v.moment 0 candidates)
        db.articles db.push in
    let items = length candidates in
    let latest = newest candidates none in
    let old = is_stale feed.poll_tier latest v.checked in
    record {
      articles = r.articles;
      push = r.push;
      feeds = schedule_next w.adaptive feed items 0 v.draw v.scheduled v.written (
          record_fetch_run
            (run_row feed.id "OK" resp.status_code (length resp.body) items r.inserted r.dups)
            (mark_feed_success feed.id
              (success resp.status_code resp.etag resp.last_modified latest items
                (health_score 0 true old) (status_of items old) true)
              v.marked db.feeds));
    }

unfoldable pub process_answer : Worker → Feed → Visit → Fetched → World → World
unfolding process_unchanged process_unparsed process_parsed
process_answer w feed v (fetch_failed not_modified) db = process_unchanged w feed v db
process_answer w feed v (fetch_failed err) db = record db {
  feeds = handle_fetch_error w.quarantine_after w.adaptive feed err v.draw v.now v.marked db.feeds;
}
process_answer w feed v (fetched resp) db =
    let p = w.parse resp.body in
    if p.failed && length p.candidates == 0
    then process_unparsed w feed v resp db
    else process_parsed w feed v resp p.candidates db

unfoldable pub process_feed : Worker → Feed → Visit → World → World
unfolding process_answer
process_feed w feed v db = process_answer w feed v v.answer db
