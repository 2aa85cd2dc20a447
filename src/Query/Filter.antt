-- ===== src/Query/Filter.antt =====
-- backend/internal/store/articles_query.go: digestExclusion, articleWhere and searchWhere, as tests of
-- one row, and scoreExpr. Full-text search and trust weights are parameters; scopes are read in lower case.
use afghanistan_news.Base.{
  ℕ, ◌+◌, ◌-◌, ◌*◌, String, Bool, true, false, not, ◌&&◌, ◌||◌, Option, none, some, List, [], ◌∷◌,
  str_eq, starts_with, leb, any, find, if◌then◌else◌,
}
use afghanistan_news.Model.{Feed, hour, minute}
use afghanistan_news.Articles.Rows.{Article, ArticleDb, Tagged, is_text, is_active}
use afghanistan_news.Query.Cursor.{Bytes}

-- model.ArticleQuery. `sort` is compared with "top" only, and `cursor` is the token.
pub record ArticleQuery : Type 0 where
  pub digest : Bool
  pub scope : String
  pub category : String
  pub province : String
  pub language : String
  pub source : String
  pub cluster : String
  pub feed : String
  pub breaking : Option Bool
  pub from : Option ℕ
  pub to : Option ℕ
  pub query : String
  pub cursor : Bytes
  pub limit : ℕ
  pub offset : ℕ
  pub sort : String
  pub include_hidden : Bool

-- The tables that a query reads, the time, and what the database computes of texts: the predicate of a
-- search and its rank, and the weight of a source.
pub record QueryDb : Type 0 where
  pub rows : ArticleDb
  pub feeds : List Feed
  pub now : ℕ
  pub matches : String → Article → Bool
  pub rank : String → Article → ℕ
  pub trust : String → ℕ
  pub trim : String → String

-- COALESCE(a.published_at, a.discovered_at)
unfoldable pub position_time : Article → ℕ
position_time a = elim (a.published_at) [ none ↦ a.discovered_at | some t ↦ t ]

abbrev pub has_tag : String → List Tagged → String → Bool
has_tag article tags tag =
    any (λ (r : Tagged). str_eq r.article_id article && str_eq r.tag.id tag) tags

unfoldable pub non_editorial : String → Bool
non_editorial c =
    str_eq c "science"
    || str_eq c "science-space-climate"
    || str_eq c "science-climate-disasters-expanded"
    || str_eq c "reference"

-- COALESCE(MAX(confidence), 0)
abbrev pub max_confidence : String → List Tagged → ℕ
max_confidence article [] = 0
max_confidence article (r ∷ rs) =
    let rest = max_confidence article rs in
    if str_eq r.article_id article && leb rest r.tag.confidence then r.tag.confidence else rest

-- NOT EXISTS a non-editorial tag that is at least as sure as every other.
unfoldable pub in_digest : List Tagged → Article → Bool
unfolding non_editorial
in_digest tags a = not (
    any
      (λ (r : Tagged).
        str_eq r.article_id a.id
        && non_editorial r.tag.id
        && leb (max_confidence a.id tags) r.tag.confidence)
      tags)

-- A column of the joined feed: NULL, and no test holds, where the article has none.
abbrev pub feed_scope : List Feed → Article → (String → Bool) → Bool
feed_scope feeds a p = elim (a.feed_id) [
  | none ↦ false
  | some f ↦ elim (find (λ (g : Feed). str_eq g.id f) feeds) [ none ↦ false | some g ↦ p g.scope ]
]

unfoldable pub in_scope : QueryDb → String → Article → Bool
in_scope d scope a =
    let has = has_tag a.id d.rows.categories in
    if str_eq scope "afghanistan"
    then feed_scope d.feeds a (λ s. starts_with s "afghanistan")
      || has "afghanistan"
      || has "provincial"
    else if str_eq scope "world"
    then feed_scope d.feeds a (λ s. str_eq s "global") || has "world" || has "regional"
    else true

-- A condition that is added only where the text of the query is not empty.
abbrev pub unless_empty : String → Bool → Bool
unless_empty t condition = str_eq t "" || condition

abbrev pub at_least : Option ℕ → ℕ → Bool
at_least none t = true
at_least (some bound) t = leb bound t

abbrev pub at_most : Option ℕ → ℕ → Bool
at_most none t = true
at_most (some bound) t = leb t bound

abbrev pub same_flag : Option Bool → Bool → Bool
same_flag none b = true
same_flag (some true) b = b
same_flag (some false) b = not b

unfoldable pub article_where : QueryDb → ArticleQuery → Article → Bool
unfolding in_scope in_digest position_time
article_where d q a =
    (q.include_hidden || is_active a.status)
    && in_scope d q.scope a
    && unless_empty q.category (has_tag a.id d.rows.categories q.category)
    && unless_empty q.province (has_tag a.id d.rows.provinces q.province)
    && unless_empty q.language (str_eq a.language q.language)
    && unless_empty q.source (str_eq a.source_id q.source)
    && unless_empty q.feed (is_text a.feed_id q.feed)
    && unless_empty q.cluster (is_text a.cluster_id q.cluster)
    && same_flag q.breaking a.is_breaking
    && (not q.digest || in_digest d.rows.categories a)
    && at_least q.from (position_time a)
    && at_most q.to (position_time a)

unfoldable pub search_where : QueryDb → ArticleQuery → Article → Bool
search_where d q a = unless_empty (d.trim q.query) (d.matches (d.trim q.query) a)

-- The rows of a query: WHERE, without the condition of a cursor.
unfoldable pub selected : QueryDb → ArticleQuery → Article → Bool
unfolding article_where search_where
selected d q a = article_where d q a && search_where d q a

-- scoreExpr, plus 6: the deduction for an article in a cluster is the absence of a bonus.
unfoldable pub score : QueryDb → Article → ℕ
unfolding position_time
score d a =
    let t = position_time a in
    let age =
      (if leb (d.now - 15 * minute) t
        then 100
        else if leb (d.now - hour) t
        then 80
        else if leb (d.now - 6 * hour) t
        then 60
        else if leb (d.now - 24 * hour) t
        then 40
        else if leb (d.now - 72 * hour) t
        then 20
        else 5) in
    age
    + d.trust a.source_id * 4
    + (if a.is_breaking then 25 else 0)
    + elim (a.cluster_id) [ none ↦ 6 | some _ ↦ 0 ]
