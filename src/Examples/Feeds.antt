-- ===== src/Examples/Feeds.antt =====
-- Feeds, their schedule and their leases, at concrete inputs.
use afghanistan_news.Base.{◌≡◌, refl, true, false, arith, All}
use afghanistan_news.Model.{Feed}
use afghanistan_news.Feeds.Lease.{postgres, sqlite, is_claimable, has_id, claim_due_feeds}
use afghanistan_news.Feeds.LeaseLaws.{no_shared_lease}
use afghanistan_news.Feeds.Activation.{selected, apply_activation_wave}
use afghanistan_news.Feeds.ActivationLaws.{IsSettled, wave_exact}
use afghanistan_news.Fetch.Client.{timed_out}
use afghanistan_news.Ingest.FetchErrors.{handle_fetch_error}
use afghanistan_news.Ingest.FailureLaws.{failed_feed_rests}
use afghanistan_news.Examples.Fixtures.{kabul, feed_db}

no_shared_lease_example :
    let (db', first) = claim_due_feeds postgres "w1" 5 180 1000 feed_db in
    let (db'', next) = claim_due_feeds postgres "w2" 5 180 1100 db' in
    All (λ (f : Feed). has_id first f ≡ false) next
no_shared_lease_example =
    no_shared_lease postgres "w1" "w2" 5 5 180 180 1000 1100 feed_db (omega arith)

wave_exact_example : All (IsSettled selected) (apply_activation_wave selected 5 6 feed_db).0.feeds
wave_exact_example = wave_exact selected 5 6 feed_db

failed_feed_rests_example :
    All
      (λ (f : Feed). f.id ≡ kabul.id → is_claimable sqlite 5 f ≡ false)
      (handle_fetch_error 12 true kabul timed_out 777 4 4 feed_db).feeds
failed_feed_rests_example =
    failed_feed_rests sqlite 12 true kabul timed_out 777 4 4 5 feed_db refl (omega arith)

abbrev balkh : Feed
balkh = record kabul { id = "f3"; normalized_xml_url = "https://balkh.example/rss" }
