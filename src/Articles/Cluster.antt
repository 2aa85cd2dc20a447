-- ===== src/Articles/Cluster.antt =====
-- backend/internal/store/articles.go: story clusters (AssignCluster, FindClusterCandidate,
-- DistinctSourceCountForTopic, RecentClusteredSeeds).
use afghanistan_news.Base.{
  ℕ, suc, String, Bool, true, false, ◌&&◌, Option, none, some, List, [], ◌∷◌, ◌++◌, map, leb,
  str_eq, if◌then◌else◌, any, select, take, update_where, count_where,
}
use afghanistan_news.Base.Sorting.{order_by}
use afghanistan_news.Articles.Rows.{Article, Cluster, ArticleDb, is_text, is_active}

unfoldable pub has_cluster : String → List Cluster → Bool
has_cluster id clusters = any (λ (c : Cluster). str_eq c.id id) clusters

-- cluster_id = $1 AND status = 'ACTIVE'
abbrev pub is_member : String → Article → Bool
is_member cluster a = is_text a.cluster_id cluster && is_active a.status

unfoldable pub members : String → List Article → ℕ
members cluster = count_where (is_member cluster)

unfoldable pub create_cluster : String → String → String → ℕ → List Cluster → List Cluster
unfolding has_cluster
create_cluster cluster article topic published clusters =
    if has_cluster cluster clusters
    then clusters
    else clusters
      ++ record {
        id = cluster;
        representative_article_id = article;
        topic_key = topic;
        first_seen_at = published;
        last_seen_at = published;
        article_count = 1;
      }
        ∷ []

unfoldable pub link_article : String → String → List Article → List Article
link_article article cluster =
    update_where (λ (a : Article). str_eq a.id article)
      (λ a. record a { cluster_id = some cluster })

unfoldable pub recount : String → ℕ → ℕ → List Cluster → List Cluster
recount cluster published n =
    update_where (λ (c : Cluster). str_eq c.id cluster)
      (λ c. record c { last_seen_at = published; article_count = n })

-- The three statements of AssignCluster, in their order.
unfoldable pub assign_cluster : String → String → String → ℕ → ArticleDb → ArticleDb
assign_cluster article cluster topic published db =
    let created = create_cluster cluster article topic published db.clusters in
    let linked = link_article article cluster db.articles in
    record db {
      articles = linked;
      clusters = recount cluster published (members cluster linked) created;
    }

abbrev pub first_id : List Cluster → Option String
first_id [] = none
first_id (c ∷ cs) = some c.id

-- ORDER BY last_seen_at DESC LIMIT 1; `none` is the empty id.
unfoldable pub find_cluster_candidate : String → ℕ → List Cluster → Option String
find_cluster_candidate topic since clusters = first_id (
    order_by (λ (c d : Cluster). leb d.last_seen_at c.last_seen_at)
      (select (λ (c : Cluster). str_eq c.topic_key topic && leb since c.last_seen_at) clusters))

-- COUNT(DISTINCT …)
unfoldable pub count_distinct : List String → ℕ
count_distinct [] = 0
count_distinct (s ∷ ss) =
    let rest = count_distinct ss in if any (λ t. str_eq t s) ss then rest else suc rest

abbrev pub in_topic : String → List Cluster → Article → Bool
in_topic topic clusters a =
    any (λ (c : Cluster). is_text a.cluster_id c.id && str_eq c.topic_key topic) clusters

unfoldable pub distinct_source_count : String → ℕ → ArticleDb → ℕ
unfolding count_distinct
distinct_source_count topic since db = count_distinct (
    map (λ (a : Article). a.source_id)
      (select
        (λ (a : Article).
          in_topic topic db.clusters a && (leb since a.discovered_at && is_active a.status))
        db.articles))

pub record ClusterSeed : Type 0 where
  pub cluster_id : String
  pub title : String

-- The rows of the scan; a NULL cluster is not selected.
unfoldable pub seeds_of : List Article → List ClusterSeed
seeds_of [] = []
seeds_of (a ∷ rest) =
    let later = seeds_of rest in
    elim a.cluster_id [ none ↦ later | some c ↦ record { cluster_id = c; title = a.title } ∷ later ]

abbrev pub is_clustered : Option String → Bool
is_clustered none = false
is_clustered (some c) = true

unfoldable pub recent_clustered_seeds : ℕ → ℕ → List Article → List ClusterSeed
unfolding seeds_of
recent_clustered_seeds since limit articles = seeds_of (
    take limit (
      order_by (λ (a b : Article). leb b.discovered_at a.discovered_at)
        (select
          (λ (a : Article).
            is_clustered a.cluster_id && (is_active a.status && leb since a.discovered_at))
          articles)))
