-- ===== src/Articles.antt =====
-- backend/internal/store/articles.go: the tables articles and article_clusters.
pub mod Rows
pub mod Dedup
pub mod DedupLaws
pub mod Reingest
pub mod Cluster
pub mod ClusterLaws
