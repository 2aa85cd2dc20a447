-- ===== src/Breaking/Monotone.antt =====
-- More evidence never takes a breaking flag away (decideBreaking in
-- backend/internal/ingest/pipeline.go).
use afghanistan_news.Base.{ℕ, ◌≤◌, ◌≡◌, true, arith, starts_with}
use afghanistan_news.Breaking.{BreakingSignals, decide_breaking, non_empty, breaking_score}
use afghanistan_news.Breaking.Laws.{flagged_exactly}

-- t has every signal that s has, at least as strong.
pub record Stronger (s t : BreakingSignals) : Type 0 where
  pub realtime : s.official_realtime ≡ true → t.official_realtime ≡ true
  pub priority : s.priority ≤ t.priority
  pub scope : starts_with s.scope "afghanistan" ≡ true → starts_with t.scope "afghanistan" ≡ true
  pub safety : non_empty s.safety_category ≡ true → non_empty t.safety_category ≡ true
  pub recent : s.recent_publish ≡ true → t.recent_publish ≡ true
  pub sources : s.distinct_sources ≤ t.distinct_sources
  pub urgency : s.urgency_marker ≡ true → t.urgency_marker ≡ true

score_mono : (s t : BreakingSignals) → Stronger s t → (breaking_score s).0 ≤ (breaking_score t).0
unfolding breaking_score
score_mono s t h = ground arith

-- A story that is flagged stays flagged when its signals are stronger, in a run with no more items
-- and no more flags behind it, under the same cap.
pub flag_mono :
    (s t : BreakingSignals) (run run' flagged flagged' most : ℕ)
    → Stronger s t
    → run' ≤ run
    → flagged' ≤ flagged
    → (decide_breaking s run flagged most).flag ≡ true
    → (decide_breaking t run' flagged' most).flag ≡ true
flag_mono s t run run' flagged flagged' most st r f h =
    let needs = (flagged_exactly s run flagged most).0 h in
    (flagged_exactly t run' flagged' most).1 (ground (arith, score_mono s t st))
