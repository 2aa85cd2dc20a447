-- ===== src/Feeds/Lease.antt =====
-- backend/internal/store/feeds.go: ClaimDueFeeds, which leases due feeds to one worker.
use afghanistan_news.Base.{
  ℕ, ◌+◌, String, Bool, true, false, not, ◌&&◌, ◌||◌, Option, none, some, List, ltb, leb, ◌==◌,
  str_eq, any, take, select, update_where,
}
use afghanistan_news.Base.Sorting.{order_by}
use afghanistan_news.Model.{Feed, HealthStatus, quarantined}
use afghanistan_news.Feeds.Writes.{FeedDb}

pub data Dialect : Type 0 where
  postgres sqlite : Dialect

abbrev pub is_quarantined : HealthStatus → Bool
is_quarantined quarantined = true
is_quarantined _ = false

-- next_poll_at IS NULL OR next_poll_at <= now
abbrev pub is_due : ℕ → Option ℕ → Bool
is_due now none = true
is_due now (some t) = leb t now

-- lease_until IS NULL OR lease_until < now
abbrev pub is_free : ℕ → Option ℕ → Bool
is_free now none = true
is_free now (some t) = ltb t now

-- The clause `needs_review = false` stands in the PostgreSQL statement only.
abbrev pub passes_review : Dialect → Bool → Bool
passes_review postgres needs_review = not needs_review
passes_review sqlite needs_review = true

unfoldable pub is_claimable : Dialect → ℕ → Feed → Bool
is_claimable d now f =
    f.enabled
    && (is_due now f.next_poll_at
        && (is_free now f.lease_until
            && (not (is_quarantined f.health_status) && passes_review d f.needs_review)))

-- next_poll_at ASC NULLS FIRST; SQLite puts NULL first without being told.
abbrev pub polls_before : Option ℕ → Option ℕ → Bool
polls_before none _ = true
polls_before (some a) none = false
polls_before (some a) (some b) = leb a b

-- ORDER BY priority DESC, next_poll_at ASC
unfoldable pub claims_before : Feed → Feed → Bool
claims_before f g =
    ltb g.priority f.priority
    || f.priority == g.priority && polls_before f.next_poll_at g.next_poll_at

-- The inner SELECT … ORDER BY … LIMIT.
unfoldable pub due_feeds : Dialect → ℕ → ℕ → List Feed → List Feed
due_feeds d now limit feeds =
    take limit (order_by claims_before (select (is_claimable d now) feeds))

-- id IN (…)
abbrev pub has_id : List Feed → Feed → Bool
has_id chosen f = any (λ (c : Feed). str_eq c.id f.id) chosen

unfoldable pub leased : String → ℕ → ℕ → Feed → Feed
leased owner now lease f = record f {
  lease_owner = some owner;
  lease_until = some (now + lease);
  updated_at = now;
}

-- The table after the UPDATE, and the rows that it returns.
unfoldable pub claim_due_feeds : Dialect → String → ℕ → ℕ → ℕ → FeedDb → FeedDb × List Feed
unfolding leased
claim_due_feeds d owner limit lease now db =
    let chosen = due_feeds d now limit db.feeds in
    let feeds = update_where (has_id chosen) (leased owner now lease) db.feeds in
    (record db { feeds = feeds }, select (has_id chosen) feeds)
