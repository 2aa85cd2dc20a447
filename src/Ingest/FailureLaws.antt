-- ===== src/Ingest/FailureLaws.antt =====
-- What a failed fetch does to the feed's row (handleFetchError in
-- backend/internal/ingest/pipeline.go).
use afghanistan_news.Base.{
  ℕ, ◌+◌, ◌*◌, ◌≤◌, ◌<◌, ◌≡◌, ◌↔◌, inl, inr, Bool-cases, String, Bool, false, List, [], ◌∷◌, arith,
  ◌==◌, str_eq, eq_iff, if◌then◌else◌, All, update_where,
}
use afghanistan_news.Model.{Feed, minute, quarantined}
use afghanistan_news.Schedule.{next_poll_delay}
use afghanistan_news.Schedule.Bounds.{next_poll_delay_bounds}
use afghanistan_news.Fetch.Client.{FetchError, blocked, http_status, transport_failed}
use afghanistan_news.Feeds.Writes.{
  FeedDb, Failure, failed, mark_feed_failure, update_feed, record_fetch_run,
}
use afghanistan_news.Feeds.Lease.{Dialect, is_claimable}
use afghanistan_news.Ingest.FetchErrors.{
  judge, judge_status, final_status, failure_of, handle_fetch_error,
}

-- The delay that the publisher asked for, 0 where it asked for none.
abbrev pub asked_delay : FetchError → ℕ
asked_delay (http_status code retry_after) = if code == 429 then retry_after else 0
asked_delay _ = 0

judge_waits :
    (err : FetchError) (backoff : ℕ)
    → asked_delay err ≡ 0
    → 2 * minute ≤ backoff
    → 2 * minute ≤ (judge err backoff).backoff
unfolding judge judge_status
judge_waits (http_status code retry_after) backoff a h = ground arith
judge_waits (transport_failed msg) backoff a h = ground arith
judge_waits blocked backoff a h = omega arith
judge_waits _ backoff a h = h

-- The row that a failure leaves: not to be claimed before its time, by any worker.
failed_shut :
    (d : Dialect) (x : Failure) (now t : ℕ) (f : Feed)
    → t < x.next_poll
    → is_claimable d t (failed x now f) ≡ false
unfolding failed is_claimable
failed_shut d x now t f h = ground arith

rows_shut :
    (d : Dialect) (x : Failure) (now t : ℕ) (id : String) (feeds : List Feed)
    → t < x.next_poll
    → All
        (λ (f : Feed). f.id ≡ id → is_claimable d t f ≡ false)
        (update_where (λ (r : Feed). str_eq r.id id) (failed x now) feeds)
rows_shut d x now t id [] h = tt
rows_shut d x now t id (f ∷ fs) h = (
  elim (Bool-cases (str_eq f.id id)) [
    | inl e ↦ rw e (λ _. failed_shut d x now t f h)
    | inr e ↦ rw e (λ p. ground (arith, eq_iff f.id id, p, e))
  ],
  rows_shut d x now t id fs h,
)

-- After a failed fetch for which the publisher asked for no delay of its own, no worker can claim
-- the feed in the next two minutes.
pub failed_feed_rests :
    (d : Dialect) (quarantine_after : ℕ) (adaptive : Bool) (feed : Feed) (err : FetchError)
    → (draw now marked t : ℕ) (db : FeedDb) → asked_delay err ≡ 0
    → t < now + 2 * minute
    → All
        (λ (f : Feed). f.id ≡ feed.id → is_claimable d t f ≡ false)
        (handle_fetch_error quarantine_after adaptive feed err draw now marked db).feeds
unfolding handle_fetch_error mark_feed_failure update_feed record_fetch_run failure_of
failed_feed_rests d quarantine_after adaptive feed err draw now marked t db a h =
    let delay = next_poll_delay feed.poll_tier (feed.consecutive_failures + 1) 0 adaptive draw in
    let bound =
      (next_poll_delay_bounds feed.poll_tier (feed.consecutive_failures + 1) 0 adaptive draw).0 in
    rows_shut d (failure_of quarantine_after adaptive feed err draw now) marked t feed.id db.feeds
      (let w = judge_waits err delay a bound in omega (arith, w, h))

judge_quarantines :
    (err : FetchError) (backoff after failures : ℕ)
    → (final_status after failures (judge err backoff).status ≡ quarantined) ↔ (err ≡ blocked)
unfolding judge judge_status final_status
judge_quarantines blocked backoff after failures = ground arith
judge_quarantines (http_status code retry_after) backoff after failures = ground arith
judge_quarantines (transport_failed msg) backoff after failures = ground arith
judge_quarantines _ backoff after failures = ground arith

-- A failed fetch quarantines the feed exactly where the guard against internal addresses refused
-- it, however often the feed has failed before.
pub quarantine_exact :
    (quarantine_after : ℕ) (adaptive : Bool) (feed : Feed) (err : FetchError) (draw now : ℕ)
    → ((failure_of quarantine_after adaptive feed err draw now).status ≡ quarantined)
      ↔ (err ≡ blocked)
unfolding failure_of
quarantine_exact quarantine_after adaptive feed err draw now =
    judge_quarantines err
      (next_poll_delay feed.poll_tier (feed.consecutive_failures + 1) 0 adaptive draw)
      quarantine_after (feed.consecutive_failures + 1)
