-- ===== src/Breaking/Laws.antt =====
-- What a breaking flag needs (decideBreaking in backend/internal/ingest/pipeline.go).
use afghanistan_news.Base.{ℕ, ◌≤◌, ◌<◌, ◌≡◌, ◌⊎◌, ◌↔◌, true, false, arith, starts_with}
use afghanistan_news.Breaking.{
  BreakingSignals, decide_breaking, effective_cap, non_empty, breaking_score,
}

-- Evidence beyond the rank of the source.
abbrev pub Supported : BreakingSignals → Type 0
Supported s =
    (starts_with s.scope "afghanistan" ≡ true)
    ⊎ (non_empty s.safety_category ≡ true)
    ⊎ (2 ≤ s.distinct_sources)
    ⊎ (s.urgency_marker ≡ true)

-- Evidence that a feed with many items a run must show.
abbrev pub Severe : BreakingSignals → Type 0
Severe s =
    (3 ≤ s.distinct_sources) ⊎ (s.urgency_marker ≡ true) ⊎ (non_empty s.safety_category ≡ true)

-- What the rule promises of a flagged story.
abbrev pub Breaks : BreakingSignals → ℕ → ℕ → ℕ → Type 0
Breaks s run flagged most =
    (60 ≤ (breaking_score s).0)
    × Supported s
    × (flagged < effective_cap most)
    × (10 ≤ run → Severe s)

flagged_needs :
    (s : BreakingSignals) (run flagged most : ℕ)
    → (decide_breaking s run flagged most).flag ≡ true
    → Breaks s run flagged most
unfolding decide_breaking
flagged_needs s run flagged most h = ground arith

flagged_when :
    (s : BreakingSignals) (run flagged most : ℕ)
    → Breaks s run flagged most
    → (decide_breaking s run flagged most).flag ≡ true
unfolding decide_breaking
flagged_when s run flagged most h = ground arith

-- A story is flagged exactly when it scores at least 0.60, has evidence beyond the rank of its
-- source, comes while the run's cap is not reached, and, in a run of ten items or more, has three
-- independent sources, an urgency marker or a safety-critical category.
pub flagged_exactly :
    (s : BreakingSignals) (run flagged most : ℕ)
    → ((decide_breaking s run flagged most).flag ≡ true) ↔ Breaks s run flagged most
flagged_exactly s run flagged most =
    (flagged_needs s run flagged most, flagged_when s run flagged most)

-- A source of any rank, its item however new, is not flagged without evidence beyond its rank.
pub ranking_not_enough :
    (s : BreakingSignals) (run flagged most : ℕ)
    → starts_with s.scope "afghanistan" ≡ false
    → non_empty s.safety_category ≡ false
    → s.distinct_sources ≤ 1
    → s.urgency_marker ≡ false
    → (decide_breaking s run flagged most).flag ≡ false
unfolding decide_breaking
ranking_not_enough s run flagged most far calm alone quiet = ground arith
