-- ===== src/Ingest/Run.antt =====
-- backend/internal/ingest/pipeline.go: evaluateBreaking, and the loop of ingestCandidates.
use Prim.Native.String.{◌++◌ as ◌+++◌}
use afghanistan_news.Base.{
  ℕ, suc, ◌-◌, ◌*◌, String, Bool, true, false, not, ◌||◌, Option, none, some, List, [], ◌∷◌, ltb,
  str_eq, if◌then◌else◌, length, take,
}
use afghanistan_news.Model.{Feed, Candidate, SourceType, official_realtime, hour, minute}
use afghanistan_news.Breaking.{BreakingSignals, decide_breaking, safety_category_of}
use afghanistan_news.Articles.Rows.{ArticleInput, ArticleDb, set_article_breaking}
use afghanistan_news.Articles.Dedup.{inserted, duplicate, InsertResult, insert_article}
use afghanistan_news.Articles.Cluster.{distinct_source_count}
use afghanistan_news.Push.Store.{PushDb}
use afghanistan_news.Push.Notify.{Outside, enqueue_push}
use afghanistan_news.Ingest.Items.{Language, Options, Moment, prepare, attach_to_cluster}

abbrev pub is_official : SourceType → Bool
is_official official_realtime = true
is_official _ = false

-- time.Since(published) < 45 minutes; an item from the future counts as recent.
abbrev pub is_recent : Option ℕ → ℕ → Bool
is_recent none now = false
is_recent (some t) now = ltb (now - t) (45 * minute)

unfoldable pub signals_of : Language → Moment → Feed → ArticleInput → ArticleDb → BreakingSignals
signals_of lang m feed x db = record {
  official_realtime = is_official feed.source_type;
  priority = feed.priority;
  scope = feed.scope;
  safety_category = safety_category_of lang.text_lt x.categories;
  recent_publish = is_recent x.published_at m.evaluated;
  distinct_sources =
      if str_eq x.title_fingerprint "" || m.count_fails
      then 0
      else distinct_source_count x.title_fingerprint (x.discovered_at - 6 * hour) db;
  urgency_marker = lang.has_urgency_marker (x.title +++ " " +++ x.summary);
}

-- The tables that a run of one feed writes, and its counters.
pub record Run : Type 0 where
  pub articles : ArticleDb
  pub push : PushDb
  pub seen : ℕ
  pub inserted : ℕ
  pub dups : ℕ
  pub flagged : ℕ

unfoldable pub evaluate_breaking :
    Language → Outside → Options → Feed → Moment → ArticleInput → String → ℕ → Run → Run
unfolding signals_of
evaluate_breaking lang out opts feed m x article run_items r =
    let d =
      decide_breaking (signals_of lang m feed x r.articles) run_items r.flagged
        opts.max_breaking_per_run in
    if not d.flag || m.flag_fails then r else record r {
      articles = set_article_breaking article true d.score r.articles;
      push =
          if opts.push_enabled
          then (enqueue_push out opts.push m.push_faults feed x article d.score m.pushed r.push).0
          else r.push;
      flagged = suc r.flagged;
    }

-- What the loop does with the answer of InsertArticle.
unfoldable pub settle :
    Language → Outside → Options → Feed → Moment → ArticleInput → ℕ → InsertResult → Run → Run
unfolding evaluate_breaking
settle lang out opts feed m x run_items result r =
    let attached = record r {
      articles = attach_to_cluster lang out m x result.article_id r.articles;
    } in
    elim result.outcome [
      | duplicate ↦ record attached { dups = suc r.dups }
      | inserted ↦
          evaluate_breaking lang out opts feed m x result.article_id run_items
            (record attached { inserted = suc r.inserted })
    ]

unfoldable pub store_item :
    Language → Outside → Options → Feed → Moment → ArticleInput → ℕ → Run → Run
unfolding settle
store_item lang out opts feed m x run_items r =
    if m.insert_fails
    then r
    else let answer = insert_article out.texts x r.articles (m.racing r.articles) in
      settle lang out opts feed m x run_items answer.1 (record r { articles = answer.0 })

abbrev pub store_prepared :
    Language → Outside → Options → Feed → Moment → Option ArticleInput → ℕ → Run → Run
store_prepared lang out opts feed m none run_items r = r
store_prepared lang out opts feed m (some x) run_items r =
    store_item lang out opts feed m x run_items r

-- One turn of the loop of ingestCandidates.
unfoldable pub ingest_item :
    Language → Outside → Options → Feed → ℕ → Candidate × Moment → Run → Run
unfolding store_item
ingest_item lang out opts feed run_items (c, m) r =
    store_prepared lang out opts feed m (prepare lang out feed c m.now) run_items
      (record r { seen = suc r.seen })

unfoldable pub ingest_items :
    Language → Outside → Options → Feed → ℕ → List (Candidate × Moment) → Run → Run
unfolding ingest_item
ingest_items lang out opts feed run_items [] r = r
ingest_items lang out opts feed run_items (i ∷ rest) r =
    ingest_items lang out opts feed run_items rest (ingest_item lang out opts feed run_items i r)

abbrev pub fresh_run : ArticleDb → PushDb → Run
fresh_run articles push = record {
  articles = articles;
  push = push;
  seen = 0;
  inserted = 0;
  dups = 0;
  flagged = 0;
}

-- Each candidate comes with its moment.
unfoldable pub ingest_candidates :
    Language → Outside → Options → Feed → List (Candidate × Moment) → ArticleDb → PushDb → Run
unfolding ingest_items
ingest_candidates lang out opts feed items articles push =
    let kept = take opts.max_items_per_run items in
    ingest_items lang out opts feed (length kept) kept (fresh_run articles push)
