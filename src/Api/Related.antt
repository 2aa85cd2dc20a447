-- ===== src/Api/Related.antt =====
-- backend/internal/httpapi/related.go and PrimaryCategory of store/articles.go: the related stories.
use afghanistan_news.Base.{
  ℕ, suc, ◌+◌, min, Bool, false, ◌&&◌, ◌||◌, Option, none, some, List, [], ◌∷◌, ◌++◌, String, ltb,
  leb, ◌==◌, str_eq, any, select, find, take, length, if◌then◌else◌,
}
use afghanistan_news.Base.Sorting.{order_by}
use afghanistan_news.Base.Text.{codes}
use afghanistan_news.Articles.Rows.{Article, Tagged}
use afghanistan_news.Query.Cursor.{Bytes}
use afghanistan_news.Query.Filter.{ArticleQuery}
use afghanistan_news.Query.Page.{query_articles, bytes_lt}
use afghanistan_news.Api.Public.{Values, parse_limit}
use afghanistan_news.Api.Pages.{hydrate_cards, card_answer, Answer, Site, not_found, server_error}

abbrev pub plain_query : ArticleQuery
plain_query = record {
  digest = false;
  scope = "";
  category = "";
  province = "";
  language = "";
  source = "";
  cluster = "";
  feed = "";
  breaking = none;
  from = none;
  to = none;
  query = "";
  cursor = [];
  limit = 0;
  offset = 0;
  sort = "";
  include_hidden = false;
}

-- PrimaryCategory: ORDER BY confidence DESC, category_id LIMIT 1; `none` for sql.ErrNoRows.
unfoldable pub primary_category : String → List Tagged → Option String
primary_category article rows =
    elim (order_by
      (λ (a : Tagged) (b : Tagged).
        ltb b.tag.confidence a.tag.confidence
        || (b.tag.confidence == a.tag.confidence && bytes_lt (codes a.tag.id) (codes b.tag.id)))
      (select (λ (r : Tagged). str_eq r.article_id article) rows)) [
        | [] ↦ none
        | r ∷ rs ↦ some r.tag.id
      ]

abbrev pub related_max_limit : ℕ
related_max_limit = 20

abbrev pub is_seen : String → List String → Bool
is_seen id seen = any (λ s. str_eq s id) seen

-- The loops of the handler: the first takes all that is new, the second stops at the limit.
unfoldable pub add_new : List Article → List String → List Article
add_new [] seen = []
add_new (a ∷ arts) seen =
    let skipped = add_new arts seen in
    let taken = a ∷ add_new arts (a.id ∷ seen) in if is_seen a.id seen then skipped else taken

abbrev pub ids : List Article → List String
ids [] = []
ids (a ∷ arts) = a.id ∷ ids arts

unfoldable pub add_until : ℕ → List Article → List String → ℕ → List Article
add_until limit [] seen n = []
add_until limit (a ∷ arts) seen n =
    let skipped = add_until limit arts seen n in
    let taken =
      a
      ∷ (let more = add_until limit arts (a.id ∷ seen) (suc n) in
          if leb limit (suc n) then [] else more) in
    if is_seen a.id seen then skipped else taken

abbrev pub same_cluster : String → ℕ → ArticleQuery
same_cluster cluster limit = record plain_query {
  cluster = cluster;
  sort = "latest";
  limit = suc limit;
}

abbrev pub same_category : String → ℕ → ArticleQuery
same_category category limit = record plain_query {
  category = category;
  sort = "latest";
  limit = suc limit;
}

abbrev pub Page : Type 0
Page = Option (List Article × Bytes)

abbrev pub new_rows : Article → Page → Option (List Article)
new_rows article none = none
new_rows article (some (rows, next)) = some (add_new rows (article.id ∷ []))

abbrev pub of_cluster : Site → Article → ℕ → Option String → Option (List Article)
of_cluster s article limit none = some []
of_cluster s article limit (some cluster) =
    if str_eq cluster ""
    then some []
    else new_rows article (query_articles s.codec s.db (same_cluster cluster limit))

-- The reports of the article's cluster; `none` where the query fails.
unfoldable pub from_cluster : Site → Article → ℕ → Option (List Article)
unfolding query_articles add_new
from_cluster s article limit = of_cluster s article limit article.cluster_id

abbrev pub topic_rows : Article → ℕ → List Article → Page → Option (List Article)
topic_rows article limit out none = none
topic_rows article limit out (some (rows, next)) =
    some (out ++ add_until limit rows (ids out ++ (article.id ∷ [])) (length out))

abbrev pub of_category : Site → Article → ℕ → List Article → Option String → Option (List Article)
of_category s article limit out none = some out
of_category s article limit out (some category) =
    if str_eq category ""
    then some out
    else topic_rows article limit out
        (query_articles s.codec s.db (same_category category (limit + length out)))

-- The latest stories of its category after them, where there is room.
unfoldable pub with_topic : Site → Article → ℕ → List Article → Option (List Article)
unfolding query_articles add_until primary_category
with_topic s article limit out =
    if leb limit (length out)
    then some out
    else of_category s article limit out (primary_category article.id s.db.rows.categories)

abbrev pub cut_at : ℕ → Option (List Article) → Option (List Article)
cut_at limit none = none
cut_at limit (some all) = some (take limit all)

abbrev pub and_topic : Site → Article → ℕ → Option (List Article) → Option (List Article)
and_topic s article limit none = none
and_topic s article limit (some out) = cut_at limit (with_topic s article limit out)

unfoldable pub related_articles : Site → Article → ℕ → Option (List Article)
unfolding from_cluster with_topic
related_articles s article limit = and_topic s article limit (from_cluster s article limit)

abbrev pub related_answer : Site → Option (List Article) → Answer
related_answer s none = server_error
related_answer s (some all) = card_answer (λ cards. cards) [] (hydrate_cards s.hydrates all)

unfoldable pub related_to : Site → Option Article → Values → Answer
unfolding related_articles parse_limit hydrate_cards
related_to s none v = not_found
related_to s (some article) v =
    related_answer s
      (related_articles s article (min (parse_limit s.lib (v "limit") 8) related_max_limit))

unfoldable pub handle_related_articles : Site → String → Values → Answer
unfolding related_to
handle_related_articles s id v =
    related_to s (find (λ (a : Article). str_eq a.id id) s.db.rows.articles) v
