-- ===== src/Articles/ClusterLaws.antt =====
-- The member counts of story clusters (backend/internal/store/articles.go).
use afghanistan_news.Base.{
  ℕ, ◌≡◌, ◌≢◌, refl, ap, sym, ◌∙◌, ◌⊎◌, inl, inr, Bool-cases, String, none, some, List, [], ◌∷◌,
  ◌++◌, arith, str_eq, eq_iff, eq_refl, if◌then◌else◌, All,
}
use afghanistan_news.Articles.Rows.{Article, Cluster, ArticleDb}
use afghanistan_news.Articles.Cluster.{
  has_cluster, members, create_cluster, link_article, recount, assign_cluster,
}

-- article_count is the number of active members.
abbrev pub IsCounted : List Article → Cluster → Type 0
IsCounted articles c = c.article_count ≡ members c.id articles

-- Where the row with the id stands: in no cluster, or in the given one.
abbrev pub IsFreeFor : String → String → Article → Type 0
IsFreeFor article cluster a = a.id ≡ article → (a.cluster_id ≡ none) ⊎ (a.cluster_id ≡ some cluster)

members-link_other :
    (article cluster d : String) (articles : List Article)
    → All (IsFreeFor article cluster) articles
    → cluster ≢ d
    → members d (link_article article cluster articles) ≡ members d articles
unfolding members link_article
members-link_other article cluster d [] h n = refl
members-link_other article cluster d (a ∷ rest) h n = ground (
  arith,
  eq_iff a.id article,
  eq_iff cluster d,
  members-link_other article cluster d rest h.1 n,
  h.0,
)

-- One row of the statement that rewrites the counts.
row-IsCounted :
    (article cluster : String) (published : ℕ) (articles : List Article) (c : Cluster)
    → All (IsFreeFor article cluster) articles
    → IsCounted articles c
    → IsCounted (link_article article cluster articles) (
        if str_eq c.id cluster
        then record c {
          last_seen_at = published;
          article_count = members cluster (link_article article cluster articles);
        }
        else c)
row-IsCounted article cluster published articles c free h =
    elim (Bool-cases (str_eq c.id cluster)) [
      | inl e ↦ rw e (
          ap (λ i. members i (link_article article cluster articles))
            (sym ((eq_iff c.id cluster).0 e)))
      | inr e ↦ rw e (
          h
          ∙ sym (
              members-link_other article cluster c.id articles free
                (λ q. ground (arith, e, q, eq_iff c.id cluster))))
    ]

recount-IsCounted :
    (article cluster : String) (published : ℕ) (articles : List Article) (clusters : List Cluster)
    → All (IsFreeFor article cluster) articles
    → All (IsCounted articles) clusters
    → All (IsCounted (link_article article cluster articles)) (
        recount cluster published
          (members cluster (link_article article cluster articles))
          clusters)
unfolding recount
recount-IsCounted article cluster published articles [] free h = tt
recount-IsCounted article cluster published articles (c ∷ cs) free h = (
  row-IsCounted article cluster published articles c free h.0,
  recount-IsCounted article cluster published articles cs free h.1,
)

appended-IsCounted :
    (article cluster topic : String) (published : ℕ) (articles : List Article)
    → (clusters : List Cluster) → All (IsFreeFor article cluster) articles
    → All (IsCounted articles) clusters
    → All (IsCounted (link_article article cluster articles)) (
        recount cluster published (members cluster (link_article article cluster articles)) (
          clusters
          ++ record {
            id = cluster;
            representative_article_id = article;
            topic_key = topic;
            first_seen_at = published;
            last_seen_at = published;
            article_count = 1;
          }
            ∷ []))
unfolding recount
appended-IsCounted article cluster topic published articles [] free h =
    rw (eq_refl cluster) (refl, tt)
appended-IsCounted article cluster topic published articles (c ∷ cs) free h = (
  row-IsCounted article cluster published articles c free h.0,
  appended-IsCounted article cluster topic published articles cs free h.1,
)

created-IsCounted :
    (article cluster topic : String) (published : ℕ) (articles : List Article)
    → (clusters : List Cluster) → All (IsFreeFor article cluster) articles
    → All (IsCounted articles) clusters
    → All (IsCounted (link_article article cluster articles)) (
        recount cluster published
          (members cluster (link_article article cluster articles))
          (create_cluster cluster article topic published clusters))
unfolding create_cluster
created-IsCounted article cluster topic published articles clusters free h =
    elim (Bool-cases (has_cluster cluster clusters)) [
      | inl e ↦ rw e (recount-IsCounted article cluster published articles clusters free h)
      | inr e ↦ rw e (appended-IsCounted article cluster topic published articles clusters free h)
    ]

-- Where each stored count is the number of active articles of its cluster, it still is after an
-- article that is in no cluster, or in this one already, is assigned.
pub assign-IsCounted :
    (article cluster topic : String) (published : ℕ) (db : ArticleDb)
    → All (IsFreeFor article cluster) db.articles
    → All (IsCounted db.articles) db.clusters
    → let after = assign_cluster article cluster topic published db in
      All (IsCounted after.articles) after.clusters
unfolding assign_cluster
assign-IsCounted article cluster topic published db free h =
    created-IsCounted article cluster topic published db.articles db.clusters free h
