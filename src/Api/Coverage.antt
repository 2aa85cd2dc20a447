-- ===== src/Api/Coverage.antt =====
-- backend/internal/httpapi/server.go (handleArticleByID, handleCluster) and rss.go, with ClusterCoverage
-- of store/articles.go.
use afghanistan_news.Base.{
  ℕ, Bool, not, ◌&&◌, Option, none, some, List, [], String, str_eq, select, find, take,
  if◌then◌else◌,
}
use afghanistan_news.Base.Sorting.{order_by}
use afghanistan_news.Articles.Rows.{Article, is_text, is_active}
use afghanistan_news.Api.Public.{Values, query, refused, parse_limit, parse_article_query}
use afghanistan_news.Api.Pages.{hydrate_cards, card_answer, answer_query, Answer, Site, invalid}

-- ORDER BY published_at DESC; the databases place NULL differently, so their order is a parameter.
abbrev pub Later : Type 0
Later = Option ℕ → Option ℕ → Bool

-- The statement of ClusterCoverage.
unfoldable pub coverage_rows : Later → String → String → ℕ → List Article → List Article
coverage_rows later cluster exclude limit rows = take limit (
    order_by (λ (a : Article) (b : Article). later a.published_at b.published_at)
      (select
        (λ (a : Article).
          is_text a.cluster_id cluster && not (str_eq a.id exclude) && is_active a.status)
        rows))

-- `none` where a statement of HydrateCards fails.
unfoldable pub cluster_coverage : Later → Site → String → String → ℕ → Option (List Article)
unfolding coverage_rows hydrate_cards
cluster_coverage later s cluster exclude limit =
    hydrate_cards s.hydrates (coverage_rows later cluster exclude limit s.db.rows.articles)

unfoldable pub handle_cluster : Later → Site → String → Values → Answer
unfolding cluster_coverage parse_limit
handle_cluster later s id v =
    card_answer (λ cards. cards) []
      (cluster_coverage later s id "" (parse_limit s.lib (v "limit") 20))

-- The answer of handleArticleByID: the article with the reports of its cluster.
pub data Detail : Type 0 where
  shown : Article → List Article → Detail
  missing failed : Detail

abbrev pub or_nothing : Option (List Article) → List Article
or_nothing none = []
or_nothing (some cards) = cards

abbrev pub of_cluster_id : Later → Site → Article → Option String → List Article
of_cluster_id later s article none = []
of_cluster_id later s article (some cluster) =
    if str_eq cluster "" then [] else or_nothing (cluster_coverage later s cluster article.id 6)

-- An error of ClusterCoverage leaves the list empty.
unfoldable pub detail_related : Later → Site → Article → List Article
unfolding cluster_coverage
detail_related later s article = of_cluster_id later s article article.cluster_id

unfoldable pub detail_of : Later → Site → Option Article → Detail
unfolding detail_related
detail_of later s none = missing
detail_of later s (some article) =
    if not (is_active article.status)
    then missing
    else if s.hydrates
    then shown article (detail_related later s article)
    else failed

unfoldable pub handle_article_by_id : Later → Site → String → Detail
unfolding detail_of
handle_article_by_id later s id =
    detail_of later s (find (λ (a : Article). str_eq a.id id) s.db.rows.articles)

abbrev pub rss_max_items : ℕ
rss_max_items = 50

-- The articles of the channel, whose items keep their order; the document itself is not modelled.
unfoldable pub handle_rss : Site → Values → Answer
unfolding parse_article_query answer_query
handle_rss s v = elim (parse_article_query s.lib v) [
  | refused e ↦ invalid e
  | query q ↦
      answer_query s (record q { sort = "latest"; cursor = []; limit = rss_max_items })
        (λ cards. cards)
]
