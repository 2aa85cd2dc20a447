-- ===== src/Ingest/ProcessLaws.antt =====
-- What a visit leaves of the feed's lease (ProcessFeed in backend/internal/ingest/pipeline.go).
use afghanistan_news.Base.{
  ℕ, ◌&&◌, ◌==◌, ◌≡◌, refl, inl, inr, Bool-cases, String, Bool, true, none, List, [], ◌∷◌, arith,
  str_eq, eq_iff, All, update_where, is_some, length,
}
use afghanistan_news.Model.{Feed}
use afghanistan_news.Fetch.Client.{Fetched, fetched, fetch_failed, FetchError, not_modified}
use afghanistan_news.Feeds.Writes.{
  FeedDb, released, release_feed, update_feed, failed, Failure, mark_feed_failure, record_fetch_run,
}
use afghanistan_news.Ingest.FetchErrors.{handle_fetch_error, schedule_next}
use afghanistan_news.Ingest.Process.{
  Worker, Visit, World, process_unchanged, process_unparsed, process_parsed, process_answer,
  process_feed,
}

-- No lease, and a time for the next poll.
abbrev pub IsReleased : Feed → Type 0
IsReleased f = (f.lease_owner ≡ none) × (f.lease_until ≡ none) × (is_some f.next_poll_at ≡ true)

abbrev pub Releases : String → FeedDb → Type 0
Releases id db = All (λ (f : Feed). f.id ≡ id → IsReleased f) db.feeds

rows-IsReleased :
    (id : String) (g : Feed → Feed) (feeds : List Feed)
    → ((f : Feed) → IsReleased (g f))
    → All
        (λ (f : Feed). f.id ≡ id → IsReleased f)
        (update_where (λ (r : Feed). str_eq r.id id) g feeds)
rows-IsReleased id g [] h = tt
rows-IsReleased id g (f ∷ fs) h = (
  elim (Bool-cases (str_eq f.id id)) [
    | inl e ↦ rw e (λ _. h f)
    | inr e ↦ rw e (λ p. ground (arith, eq_iff f.id id, p, e))
  ],
  rows-IsReleased id g fs h,
)

failure-Releases :
    (id : String) (x : Failure) (now : ℕ) (db : FeedDb)
    → Releases id (mark_feed_failure id x now db)
unfolding mark_feed_failure update_feed failed
failure-Releases id x now db = rows-IsReleased id (failed x now) db.feeds (λ f. (refl, refl, refl))

schedule-Releases :
    (adaptive : Bool) (feed : Feed) (items failures draw now written : ℕ) (db : FeedDb)
    → Releases feed.id (schedule_next adaptive feed items failures draw now written db)
unfolding schedule_next release_feed update_feed released
schedule-Releases adaptive feed items failures draw now written db =
    rows-IsReleased feed.id (released _ written) db.feeds (λ f. (refl, refl, refl))

error-Releases :
    (w : Worker) (feed : Feed) (err : FetchError) (v : Visit) (db : World)
    → Releases feed.id (process_answer w feed v (fetch_failed err) db).feeds
unfolding process_answer process_unchanged handle_fetch_error record_fetch_run
error-Releases w feed not_modified v db =
    schedule-Releases w.adaptive feed 0 feed.consecutive_failures v.draw v.scheduled v.written _
error-Releases w feed _ v db = failure-Releases feed.id _ v.marked db.feeds

answer-Releases :
    (w : Worker) (feed : Feed) (v : Visit) (answer : Fetched) (db : World)
    → Releases feed.id (process_answer w feed v answer db).feeds
unfolding process_answer process_unparsed process_parsed record_fetch_run
answer-Releases w feed v (fetch_failed err) db = error-Releases w feed err v db
answer-Releases w feed v (fetched resp) db =
    let p = w.parse resp.body in
    elim (Bool-cases (p.failed && length p.candidates == 0)) [
      | inl e ↦ rw e (failure-Releases feed.id _ v.marked db.feeds)
      | inr e ↦
          rw e (
            schedule-Releases w.adaptive feed (length p.candidates) 0 v.draw v.scheduled v.written
              _)
    ]

-- Whatever the fetcher answers and the parser reads, a visit that returns, its statements on the
-- feed's row having succeeded, leaves that row without a lease and with a time for the next poll.
pub lease_returned :
    (w : Worker) (feed : Feed) (v : Visit) (db : World)
    → All (λ (f : Feed). f.id ≡ feed.id → IsReleased f) (process_feed w feed v db).feeds.feeds
unfolding process_feed
lease_returned w feed v db = answer-Releases w feed v v.answer db
