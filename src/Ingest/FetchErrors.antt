-- ===== src/Ingest/FetchErrors.antt =====
-- backend/internal/ingest/pipeline.go: handleFetchError, scheduleNext and staleWindow.
use afghanistan_news.Base.{
  ℕ, ◌+◌, ◌*◌, String, Bool, true, false, not, ◌&&◌, ◌||◌, ltb, leb, ◌==◌, if◌then◌else◌,
}
use afghanistan_news.Model.{
  Feed, PollTier, breaking_tier, high_tier, normal_tier, HealthStatus, degraded, quarantined,
  unstable, rate_limited, http_error, disabled, hour,
}
use afghanistan_news.Schedule.{health_score, next_poll_delay}
use afghanistan_news.Fetch.Client.{
  FetchError, blocked, timed_out, too_large, bad_type, http_status, circuit_open, transport_failed,
  mentions,
}
use afghanistan_news.Feeds.Writes.{
  EventType, http_error as http_error_event, timeout, response_too_large, parser_error_event,
  rate_limited_event, security_blocked, circuit_open as circuit_open_event, ErrorCode,
  http_error_code, ssrf_blocked, timeout_code, response_guard, html_response, circuit_open_code,
  http_code, FeedDb, Failure, mark_feed_failure, FetchRun, record_fetch_run, status_value,
  release_feed,
}
use afghanistan_news.Feeds.Lease.{is_quarantined}

-- What the switch of handleFetchError decides.
pub record Verdict : Type 0 where
  pub status : HealthStatus
  pub event_type : EventType
  pub code : ErrorCode
  pub backoff : ℕ

abbrev pub verdict : HealthStatus → EventType → ErrorCode → ℕ → Verdict
verdict s e c b = record { status = s; event_type = e; code = c; backoff = b }

-- The inner switch, on the status code of an HTTPError and its Retry-After.
unfoldable pub judge_status : ℕ → ℕ → ℕ → Verdict
judge_status code retry_after backoff =
    if code == 429
    then verdict rate_limited rate_limited_event (http_code 429)
        (if ltb 0 retry_after then retry_after else hour)
    else if code == 404 || code == 410
    then verdict http_error http_error_event (http_code code) (24 * hour)
    else if code == 401 || code == 403
    then verdict disabled http_error_event (http_code code) (12 * hour)
    else verdict degraded http_error_event (http_code code) backoff

-- `backoff` is the delay that the tier asks for.
unfoldable pub judge : FetchError → ℕ → Verdict
unfolding judge_status
judge blocked backoff = verdict quarantined security_blocked ssrf_blocked (24 * hour)
judge timed_out backoff = verdict degraded timeout timeout_code backoff
judge too_large backoff = verdict unstable response_too_large response_guard backoff
judge bad_type backoff = verdict unstable parser_error_event html_response backoff
judge (http_status code retry_after) backoff = judge_status code retry_after backoff
judge circuit_open backoff = verdict degraded circuit_open_event circuit_open_code backoff
judge (transport_failed msg) backoff =
    if mentions msg "circuit open"
    then verdict degraded circuit_open_event circuit_open_code backoff
    else verdict degraded http_error_event http_error_code backoff
judge _ backoff = verdict degraded http_error_event http_error_code backoff

abbrev pub error_status : FetchError → ℕ
error_status (http_status code retry_after) = code
error_status _ = 0

-- A feed that keeps failing is marked unstable, whatever the error, unless it is quarantined.
unfoldable pub final_status : ℕ → ℕ → HealthStatus → HealthStatus
final_status quarantine_after failures status =
    if leb quarantine_after failures && not (is_quarantined status) then unstable else status

abbrev pub failed_run : String → ℕ → FetchRun
failed_run id status = record {
  feed_id = id;
  result = "ERROR";
  http_status = status_value status;
  bytes_received = 0;
  items_seen = 0;
  items_inserted = 0;
  duplicates = 0;
}

-- The failure that handleFetchError stores; `nano` seeds the jitter and `now` is the clock.
unfoldable pub failure_of : ℕ → Bool → Feed → FetchError → ℕ → ℕ → Failure
unfolding judge final_status
failure_of quarantine_after adaptive feed err nano now =
    let failures = feed.consecutive_failures + 1 in
    let v = judge err (next_poll_delay feed.poll_tier failures 0 adaptive nano) in
    record {
      http_status = error_status err;
      event_type = v.event_type;
      error_code = v.code;
      failures = failures;
      score = health_score failures true false;
      status = final_status quarantine_after failures v.status;
      next_poll = now + v.backoff;
    }

unfoldable pub handle_fetch_error : ℕ → Bool → Feed → FetchError → ℕ → ℕ → ℕ → FeedDb → FeedDb
unfolding failure_of
handle_fetch_error quarantine_after adaptive feed err nano now marked db =
    record_fetch_run (failed_run feed.id (error_status err))
      (mark_feed_failure feed.id (failure_of quarantine_after adaptive feed err nano now) marked db)

unfoldable pub schedule_next : Bool → Feed → ℕ → ℕ → ℕ → ℕ → ℕ → FeedDb → FeedDb
schedule_next adaptive feed items failures nano now written db =
    release_feed feed.id (now + next_poll_delay feed.poll_tier failures items adaptive nano) written
      db

unfoldable pub stale_window : PollTier → ℕ
stale_window breaking_tier = 24 * hour
stale_window high_tier = 24 * hour
stale_window normal_tier = 72 * hour
stale_window _ = 14 * 24 * hour
