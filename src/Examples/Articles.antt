-- ===== src/Examples/Articles.antt =====
-- Articles, clusters and notifications at concrete inputs.
use afghanistan_news.Base.{◌-◌, ◌*◌, ◌≤◌, ◌≡◌, refl, inl, inr, some, none, arith, All}
use afghanistan_news.Model.{hour}
use afghanistan_news.Articles.Dedup.{
  Level, find_duplicate_article, duplicate, inserted, insert_article, insert_unless, insert_row,
  has_article,
}
use afghanistan_news.Articles.Reingest.{reingest_idempotent}
use afghanistan_news.Articles.Cluster.{assign_cluster, members}
use afghanistan_news.Articles.ClusterLaws.{IsCounted, assign-IsCounted}
use afghanistan_news.Push.Store.{count_push_events_since, push_event_exists}
use afghanistan_news.Push.Notify.{enqueue_push, message_for}
use afghanistan_news.Push.NotifyLaws.{caps_kept, one_push_per_story}
use afghanistan_news.Examples.Fixtures.{
  kabul, report, texts, no_articles, two_articles, outside, push_options, no_faults, no_push,
}

is_new : (insert_article texts report no_articles no_articles).1.outcome ≡ inserted
unfolding insert_article insert_unless insert_row find_duplicate_article has_article
is_new = refl

reingest_idempotent_example :
    let (after, result) = insert_article texts report no_articles no_articles in
    (l : Level) × (insert_article texts report after after ≡ (
      after,
      record { outcome = duplicate; article_id = result.article_id; dedup_level = some l },
    ))
reingest_idempotent_example = reingest_idempotent texts report no_articles refl is_new

assign-IsCounted_example :
    let after = assign_cluster "a1" "c1" "t1" 500 two_articles in
    All (IsCounted after.articles) after.clusters
unfolding members
assign-IsCounted_example =
    assign-IsCounted "a1" "c1" "t1" 500 two_articles ((λ _. inl refl), ((λ _. inr refl), tt))
      (refl, tt)

caps_kept_example :
    let after =
      (enqueue_push outside push_options no_faults kabul report "a1" 80 9000 no_push).0.events in
    (count_push_events_since (9000 - hour) "" after ≤ 4)
    × (count_push_events_since (9000 - 24 * hour) "" after ≤ 20)
caps_kept_example =
    caps_kept outside push_options no_faults kabul report "a1" 80 9000 no_push (omega arith)
      (omega arith) refl refl (unfold count_push_events_since in omega arith)
      (unfold count_push_events_since in omega arith)

hands_over :
    (enqueue_push outside push_options no_faults kabul report "a1" 80 9000 no_push).1
    ≡ some (message_for outside kabul report "a1" 80)
unfolding enqueue_push push_event_exists
hands_over = refl

one_push_per_story_example :
    let after = (enqueue_push outside push_options no_faults kabul report "a1" 80 9000 no_push).0 in
    enqueue_push outside push_options no_faults kabul report "a1" 90 9999 after ≡ (after, none)
one_push_per_story_example =
    one_push_per_story outside push_options push_options no_faults no_faults kabul report "a1" 80 90
      9000 9999 no_push (message_for outside kabul report "a1" 80) refl refl hands_over
