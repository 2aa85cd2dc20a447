-- ===== src/Api/CoverageLaws.antt =====
-- backend/internal/httpapi/server.go, related.go and rss.go: which articles a reader can be shown.
use afghanistan_news.Base.{
  ℕ, Bool, true, false, Option, none, some, List, [], ◌∷◌, String, inl, inr, All, find, str_eq,
  Bool-cases, arith, if◌then◌else◌,
}
use afghanistan_news.Base.Sorting.{All-order_by, All-take, All-select}
use afghanistan_news.Articles.Rows.{Article, is_active}
use afghanistan_news.Query.ActiveLaws.{IsActive}
use afghanistan_news.Api.Public.{Values, parse_limit, parse_article_query}
use afghanistan_news.Api.Pages.{
  hydrate_cards, Site, handle_articles, handle_province_articles, handle_search,
}
use afghanistan_news.Api.Related.{handle_related_articles}
use afghanistan_news.Api.Coverage.{
  Later, coverage_rows, cluster_coverage, handle_cluster, Detail, shown, failed, or_nothing,
  of_cluster_id, detail_related, detail_of, handle_article_by_id, rss_max_items, handle_rss,
}
use afghanistan_news.Api.PagesLaws.{
  ShowsActive, card_answer-ShowsActive, parsed_answer, parse_article_query-IsPublic,
  answer_query-ShowsActive, articles-ShowsActive, province-ShowsActive, search-ShowsActive,
}
use afghanistan_news.Api.RelatedLaws.{related-ShowsActive}

coverage_rows-IsActive :
    (later : Later) (cluster exclude : String) (limit : ℕ) (rows : List Article)
    → All IsActive (coverage_rows later cluster exclude limit rows)
unfolding coverage_rows
coverage_rows-IsActive later cluster exclude limit rows =
    All-take IsActive limit _
      (All-order_by IsActive _ _ (All-select IsActive _ rows (λ a h. ground (arith, h))))

cluster-ShowsActive :
    (later : Later) (s : Site) (id : String) (v : Values)
    → ShowsActive (handle_cluster later s id v)
unfolding handle_cluster cluster_coverage
cluster-ShowsActive later s id v =
    let limit = parse_limit s.lib (v "limit") 20 in
    let rows = s.db.rows.articles in
    card_answer-ShowsActive s.hydrates (λ cards. cards) [] (coverage_rows later id "" limit rows)
      (λ cards k. k) (coverage_rows-IsActive later id "" limit rows)

hydrated-IsActive :
    (hydrates : Bool) (rows : List Article)
    → All IsActive rows
    → All IsActive (or_nothing (hydrate_cards hydrates rows))
unfolding hydrate_cards
hydrated-IsActive hydrates [] h = tt
hydrated-IsActive true (a ∷ arts) h = h
hydrated-IsActive false (a ∷ arts) h = tt

of_cluster_id-IsActive :
    (later : Later) (s : Site) (article : Article) (o : Option String)
    → All IsActive (of_cluster_id later s article o)
unfolding cluster_coverage
of_cluster_id-IsActive later s article none = tt
of_cluster_id-IsActive later s article (some cluster) = elim (Bool-cases (str_eq cluster "")) [
  | inl e ↦ rw e tt
  | inr e ↦ rw e (
      hydrated-IsActive s.hydrates _
        (coverage_rows-IsActive later cluster article.id 6 s.db.rows.articles))
]

-- The article and the reports beside it are active.
abbrev pub DetailActive : Detail → Type 0
DetailActive (shown article related) = IsActive article × All IsActive related
DetailActive _ = Unit {0}

DetailActive-if :
    (b : Bool) (m n : Detail) → DetailActive m → DetailActive n → DetailActive (if b then m else n)
DetailActive-if true m n h k = h
DetailActive-if false m n h k = k

detail_of-DetailActive :
    (later : Later) (s : Site) (o : Option Article) → DetailActive (detail_of later s o)
unfolding detail_of detail_related
detail_of-DetailActive later s none = tt
detail_of-DetailActive later s (some article) = elim (Bool-cases (is_active article.status)) [
  | inr e ↦ rw e tt
  | inl e ↦ rw e (
      DetailActive-if s.hydrates (shown article _) failed
        (e, of_cluster_id-IsActive later s article article.cluster_id) tt)
]

rss-ShowsActive : (s : Site) (v : Values) → ShowsActive (handle_rss s v)
unfolding handle_rss
rss-ShowsActive s v =
    parsed_answer (parse_article_query s.lib v) _ (parse_article_query-IsPublic s.lib v) λ q h.
      answer_query-ShowsActive s (record q { sort = "latest"; cursor = []; limit = rss_max_items })
        _ h (λ rows k. k)

-- Whatever a request asks for, /v1/articles, /v1/provinces/{id}/articles, /v1/search, /v1/rss.xml,
-- /v1/articles/{id}/related, /v1/clusters/{id} and /v1/articles/{id} with its reports of the same story
-- show no article that was hidden or rejected.
pub readers-ShowsActive :
    (later : Later) (s : Site) (v : Values) (province id : String)
    → ShowsActive (handle_articles s v)
      × ShowsActive (handle_province_articles s province v)
      × ShowsActive (handle_search s v)
      × ShowsActive (handle_rss s v)
      × ShowsActive (handle_related_articles s id v)
      × ShowsActive (handle_cluster later s id v)
      × DetailActive (handle_article_by_id later s id)
unfolding handle_article_by_id
readers-ShowsActive later s v province id = (
  articles-ShowsActive s v,
  province-ShowsActive s province v,
  search-ShowsActive s v,
  rss-ShowsActive s v,
  related-ShowsActive s id v,
  cluster-ShowsActive later s id v,
  detail_of-DetailActive later s (find (λ (a : Article). str_eq a.id id) s.db.rows.articles),
)
