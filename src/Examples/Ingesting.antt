-- ===== src/Examples/Ingesting.antt =====
-- The breaking rule and the pipeline at concrete inputs.
use afghanistan_news.Base.{◌+◌, ◌≤◌, ◌≡◌, ◌↔◌, true, List, [], ◌∷◌, All, min, length}
use afghanistan_news.Model.{Feed, Candidate}
use afghanistan_news.Breaking.{BreakingSignals, decide_breaking, effective_cap}
use afghanistan_news.Breaking.Laws.{Breaks, flagged_exactly}
use afghanistan_news.Ingest.Items.{Moment}
use afghanistan_news.Ingest.Run.{ingest_candidates}
use afghanistan_news.Ingest.RunLaws.{run_counts}
use afghanistan_news.Ingest.Cycle.{run_once}
use afghanistan_news.Ingest.CycleLaws.{cycle_releases}
use afghanistan_news.Feeds.Lease.{postgres, has_id}
use afghanistan_news.Ingest.Process.{process_feed}
use afghanistan_news.Ingest.ProcessLaws.{IsReleased, lease_returned}
use afghanistan_news.Examples.Fixtures.{kabul, outside, no_articles, no_push}
use afghanistan_news.Examples.Environments.{
  visit, language, options, moment, candidate, worker, world,
}

abbrev quake : BreakingSignals
quake = record {
  official_realtime = true;
  priority = 5;
  scope = "global";
  safety_category = "disasters";
  recent_publish = true;
  distinct_sources = 1;
  urgency_marker = true;
}

flagged_exactly_example : ((decide_breaking quake 3 1 2).flag ≡ true) ↔ Breaks quake 3 1 2
flagged_exactly_example = flagged_exactly quake 3 1 2

abbrev morning : List (Candidate × Moment)
morning = (candidate "A dam opens", moment) ∷ (candidate "Rain", moment) ∷ []

run_counts_example :
    let r = ingest_candidates language outside options kabul morning no_articles no_push in
    (r.seen ≡ min 60 (length morning))
    × (r.inserted + r.dups ≤ r.seen)
    × (r.flagged ≤ r.inserted)
    × (r.flagged ≤ effective_cap 2)
run_counts_example = run_counts language outside options kabul morning no_articles no_push

lease_returned_example :
    All
      (λ (f : Feed). f.id ≡ kabul.id → IsReleased f)
      (process_feed worker kabul visit world).feeds.feeds
lease_returned_example = lease_returned worker kabul visit world

cycle_releases_example :
    let (after, claimed) = run_once worker postgres "w1" 5 1000 (λ _. visit) world in
    All (λ (f : Feed). has_id claimed f ≡ true → IsReleased f) after.feeds.feeds
cycle_releases_example = cycle_releases worker postgres "w1" 5 1000 (λ _. visit) world
