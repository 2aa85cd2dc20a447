-- ===== src/Ingest/Topic.antt =====
-- backend/internal/feed/normalize/topicmatch.go, and nearDuplicateCluster in
-- backend/internal/ingest/pipeline.go. strings.Fields and strings.TrimSpace are parameters.
use afghanistan_news.Base.{
  ℕ, ◌*◌, String, Bool, false, ◌&&◌, ◌||◌, List, [], ◌∷◌, ltb, leb, ◌==◌, str_eq, if◌then◌else◌,
  any, length, count_where,
}
use afghanistan_news.Articles.Cluster.{ClusterSeed}

abbrev pub is_token : List String → String → Bool
is_token tokens t = any (λ u. str_eq u t) tokens

-- The set of the non-empty fields: each stands once.
unfoldable pub topic_tokens : List String → List String
topic_tokens [] = []
topic_tokens (f ∷ fs) =
    let rest = topic_tokens fs in if str_eq f "" || is_token rest f then rest else f ∷ rest

abbrev pub shared : List String → List String → ℕ
shared small large = count_where (is_token large) small

abbrev pub shared_min : ℕ
shared_min = 4

-- shared / |small| >= 0.6, as 5 * shared >= 3 * |small|.
abbrev pub overlaps : List String → List String → Bool
overlaps small large =
    leb shared_min (shared small large) && leb (3 * length small) (5 * shared small large)

unfoldable pub near_duplicate_tokens : List String → List String → Bool
near_duplicate_tokens a b =
    if length a == 0 || length b == 0
    then false
    else if ltb (length b) (length a)
    then overlaps b a
    else overlaps a b

unfoldable pub near_duplicate_title : (String → List String) → String → String → Bool
unfolding topic_tokens near_duplicate_tokens
near_duplicate_title fields a b =
    near_duplicate_tokens (topic_tokens (fields a)) (topic_tokens (fields b))

-- The first seed whose title tells the same story.
unfoldable pub first_seed : (String → Bool) → List ClusterSeed → String
first_seed same [] = ""
first_seed same (s ∷ rest) =
    let later = first_seed same rest in if same s.title then s.cluster_id else later

unfoldable pub near_duplicate_cluster :
    (String → List String)
    → (String → String)
    → (String → String)
    → String
    → List ClusterSeed
    → String
unfolding near_duplicate_title first_seed
near_duplicate_cluster fields trim normalized_title candidate seeds =
    if str_eq (trim candidate) ""
    then ""
    else first_seed (λ title. near_duplicate_title fields candidate (normalized_title title)) seeds
