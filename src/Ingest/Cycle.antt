-- ===== src/Ingest/Cycle.antt =====
-- backend/internal/ingest/pipeline.go: RunOnce. Each claimed feed is visited once; the goroutines
-- write different rows, and a visit is one step. Panics are not modelled.
use afghanistan_news.Base.{ℕ, ◌*◌, String, List, [], ◌∷◌}
use afghanistan_news.Model.{Feed, minute}
use afghanistan_news.Feeds.Lease.{Dialect, claim_due_feeds}
use afghanistan_news.Ingest.Process.{Worker, Visit, World, process_feed}

unfoldable pub visit_all : Worker → (Feed → Visit) → List Feed → World → World
visit_all w visit [] db = db
visit_all w visit (f ∷ fs) db = visit_all w visit fs (process_feed w f (visit f) db)

-- The claimed feeds, and the tables after their visits.
unfoldable pub run_once :
    Worker → Dialect → String → ℕ → ℕ → (Feed → Visit) → World → World × List Feed
unfolding visit_all
run_once w d owner batch now visit db =
    let (claimed, feeds) = claim_due_feeds d owner batch (3 * minute) now db.feeds in
    (visit_all w visit feeds (record db { feeds = claimed }), feeds)
