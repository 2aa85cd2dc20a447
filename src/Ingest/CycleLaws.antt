-- ===== src/Ingest/CycleLaws.antt =====
-- What a cycle of the worker leaves of its leases (backend/internal/ingest/pipeline.go).
use afghanistan_news.Base.{
  ℕ, ◌*◌, ◌≡◌, refl, inl, inr, Bool-cases, String, Bool, true, false, ◌&&◌, ◌||◌, ◌==◌, List, [],
  ◌∷◌, arith, str_eq, eq_iff, All, any, update_where, length,
}
use afghanistan_news.Model.{Feed, minute}
use afghanistan_news.Fetch.Client.{Fetched, fetched, fetch_failed, FetchError, not_modified}
use afghanistan_news.Feeds.Writes.{
  FeedDb, released, release_feed, update_feed, failed, Failure, mark_feed_failure, Success,
  succeeded, mark_feed_success, record_fetch_run,
}
use afghanistan_news.Feeds.Lease.{Dialect, has_id, claim_due_feeds}
use afghanistan_news.Ingest.FetchErrors.{handle_fetch_error, schedule_next}
use afghanistan_news.Ingest.Process.{
  Worker, Visit, World, process_unchanged, process_unparsed, process_parsed, process_answer,
  process_feed,
}
use afghanistan_news.Ingest.Cycle.{visit_all, run_once}
use afghanistan_news.Ingest.ProcessLaws.{IsReleased, lease_returned}

-- The rows with ids of a kind are released.
abbrev Kept : (String → Bool) → FeedDb → Type 0
Kept q db = All (λ (f : Feed). q f.id ≡ true → IsReleased f) db.feeds

update-keeps :
    (q : String → Bool) (id : String) (g : Feed → Feed) (feeds : List Feed)
    → ((f : Feed) → (g f).id ≡ f.id)
    → ((f : Feed) → IsReleased f → IsReleased (g f))
    → All (λ (f : Feed). q f.id ≡ true → IsReleased f) feeds
    → All
        (λ (f : Feed). q f.id ≡ true → IsReleased f)
        (update_where (λ (r : Feed). str_eq r.id id) g feeds)
update-keeps q id g [] same keeps h = tt
update-keeps q id g (f ∷ fs) same keeps h = (
  elim (Bool-cases (str_eq f.id id)) [
    | inl e ↦ rw e (λ p. keeps f (h.0 (rw (same f) at p)))
    | inr e ↦ rw e h.0
  ],
  update-keeps q id g fs same keeps h.1,
)

failure-keeps :
    (q : String → Bool) (id : String) (x : Failure) (now : ℕ) (db : FeedDb)
    → Kept q db
    → Kept q (mark_feed_failure id x now db)
unfolding mark_feed_failure update_feed failed
failure-keeps q id x now db h =
    update-keeps q id (failed x now) db.feeds (λ f. refl) (λ f _. (refl, refl, refl)) h

success-keeps :
    (q : String → Bool) (id : String) (x : Success) (now : ℕ) (db : FeedDb)
    → Kept q db
    → Kept q (mark_feed_success id x now db)
unfolding mark_feed_success update_feed succeeded
success-keeps q id x now db h =
    update-keeps q id (succeeded x now) db.feeds (λ f. refl) (λ f r. r) h

schedule-keeps :
    (q : String → Bool) (adaptive : Bool) (feed : Feed) (items failures draw now written : ℕ)
    → (db : FeedDb) → Kept q db
    → Kept q (schedule_next adaptive feed items failures draw now written db)
unfolding schedule_next release_feed update_feed released
schedule-keeps q adaptive feed items failures draw now written db h =
    update-keeps q feed.id (released _ written) db.feeds (λ f. refl) (λ f _. (refl, refl, refl)) h

error-keeps :
    (q : String → Bool) (w : Worker) (feed : Feed) (err : FetchError) (v : Visit) (db : World)
    → Kept q db.feeds
    → Kept q (process_answer w feed v (fetch_failed err) db).feeds
unfolding process_answer process_unchanged handle_fetch_error record_fetch_run
error-keeps q w feed not_modified v db h =
    schedule-keeps q w.adaptive feed 0 feed.consecutive_failures v.draw v.scheduled v.written _
      (success-keeps q feed.id _ v.marked db.feeds h)
error-keeps q w feed _ v db h = failure-keeps q feed.id _ v.marked db.feeds h

answer-keeps :
    (q : String → Bool) (w : Worker) (feed : Feed) (v : Visit) (answer : Fetched) (db : World)
    → Kept q db.feeds
    → Kept q (process_answer w feed v answer db).feeds
unfolding process_answer process_unparsed process_parsed record_fetch_run
answer-keeps q w feed v (fetch_failed err) db h = error-keeps q w feed err v db h
answer-keeps q w feed v (fetched resp) db h =
    let p = w.parse resp.body in
    elim (Bool-cases (p.failed && length p.candidates == 0)) [
      | inl e ↦ rw e (failure-keeps q feed.id _ v.marked db.feeds h)
      | inr e ↦ rw e (
          schedule-keeps q w.adaptive feed (length p.candidates) 0 v.draw v.scheduled v.written _
            (success-keeps q feed.id _ v.marked db.feeds h))
    ]

All-either :
    (q : String → Bool) (id : String) (feeds : List Feed)
    → All (λ (f : Feed). q f.id ≡ true → IsReleased f) feeds
    → All (λ (f : Feed). f.id ≡ id → IsReleased f) feeds
    → All (λ (f : Feed). (q f.id || str_eq id f.id) ≡ true → IsReleased f) feeds
All-either q id [] h h' = tt
All-either q id (f ∷ fs) h h' = (
  λ e. elim (Bool-cases (q f.id)) [
    | inl t ↦ h.0 t
    | inr t ↦ h'.0 (ground (arith, e, t, eq_iff id f.id))
  ],
  All-either q id fs h.1 h'.1,
)

Kept-weaken :
    (q r : String → Bool) (feeds : List Feed)
    → ((i : String) → r i ≡ true → q i ≡ true)
    → All (λ (f : Feed). q f.id ≡ true → IsReleased f) feeds
    → All (λ (f : Feed). r f.id ≡ true → IsReleased f) feeds
Kept-weaken q r [] sub h = tt
Kept-weaken q r (f ∷ fs) sub h = ((λ e. h.0 (sub f.id e)), Kept-weaken q r fs sub h.1)

abbrev is_among : List Feed → String → Bool
is_among feeds i = any (λ (c : Feed). str_eq c.id i) feeds

Kept-visit_all :
    (q : String → Bool) (w : Worker) (visit : Feed → Visit) (feeds : List Feed) (db : World)
    → Kept q db.feeds
    → Kept (λ i. q i || is_among feeds i) (visit_all w visit feeds db).feeds
unfolding visit_all process_feed
Kept-visit_all q w visit [] db h =
    Kept-weaken q (λ i. q i || false) db.feeds.feeds (λ i e. ground (arith, e)) h
Kept-visit_all q w visit (f ∷ fs) db h =
    let after = process_feed w f (visit f) db in
    let one : Kept (λ i. q i || str_eq f.id i) after.feeds =
      All-either q f.id after.feeds.feeds (answer-keeps q w f (visit f) (visit f).answer db h)
        (lease_returned w f (visit f) db) in
    Kept-weaken (λ i. (q i || str_eq f.id i) || is_among fs i)
      (λ i. q i || (str_eq f.id i || is_among fs i)) (visit_all w visit fs after).feeds.feeds
      (λ i e. ground (arith, e)) (Kept-visit_all (λ i. q i || str_eq f.id i) w visit fs after one)

nothing_kept : (feeds : List Feed) → All (λ (f : Feed). false ≡ true → IsReleased f) feeds
nothing_kept [] = tt
nothing_kept (f ∷ fs) = ((λ e. absurd (cc)), nothing_kept fs)

-- A cycle of the worker whose visits all return, their statements on the feeds' rows having
-- succeeded, leaves none of the feeds that it claimed leased, and each with a time for its next
-- poll, also where fetches fail.
pub cycle_releases :
    (w : Worker) (d : Dialect) (owner : String) (batch now : ℕ) (visit : Feed → Visit)
    → (db : World)
    → let (after, claimed) = run_once w d owner batch now visit db in
      All (λ (f : Feed). has_id claimed f ≡ true → IsReleased f) after.feeds.feeds
unfolding run_once
cycle_releases w d owner batch now visit db =
    Kept-visit_all (λ i. false) w visit (claim_due_feeds d owner batch (3 * minute) now db.feeds).1
      (record db { feeds = (claim_due_feeds d owner batch (3 * minute) now db.feeds).0 })
      (nothing_kept (claim_due_feeds d owner batch (3 * minute) now db.feeds).0.feeds)
