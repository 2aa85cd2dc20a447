-- ===== src/Ingest/Items.antt =====
-- backend/internal/ingest/pipeline.go: the items of ingestCandidates, and attachToCluster. What the
-- pipeline calls of the packages normalize and classify is the record Language; Ingest/Topic and
-- Classify model two of its operations.
use Prim.Native.String.{◌++◌ as ◌+++◌}
use afghanistan_news.Base.{
  ℕ, ◌-◌, ◌*◌, String, Bool, false, not, ◌||◌, Option, none, some, List, ltb, str_eq, if◌then◌else◌,
  length,
}
use afghanistan_news.Base.Text.{codes}
use afghanistan_news.Model.{Feed, Candidate, Assignment, hour}
use afghanistan_news.Articles.Rows.{Opportunity, ArticleInput, ArticleDb, stable_id}
use afghanistan_news.Articles.Cluster.{
  find_cluster_candidate, recent_clustered_seeds, assign_cluster,
}
use afghanistan_news.Push.Notify.{Faults, PushOptions, Outside}
use afghanistan_news.Ingest.Topic.{near_duplicate_cluster}

-- What the pipeline calls on texts: strings, regexp, and the packages normalize and classify.
pub record Language : Type 0 where
  pub fields : String → List String
  pub trim : String → String
  pub text_lt : String → String → Bool
  pub canonicalize_url : String → Option (String × String)
  pub strip_html : String → String
  pub truncate : String → ℕ → String
  pub sanitize_html : String → String
  pub detect_language : String → String → String → String
  pub normalized_title : String → String
  pub fingerprint : String → ℕ → String
  pub content_hash : String → String → String
  pub first_image : String → String
  pub classify : Feed → String → String → String → List Assignment × List Assignment
  pub opportunity : Feed → String → String → Option Opportunity
  pub has_urgency_marker : String → Bool

pub record Options : Type 0 where
  pub max_items_per_run : ℕ
  pub max_breaking_per_run : ℕ
  pub push_enabled : Bool
  pub push : PushOptions

-- The clock and the failing statements of one item; `racing` is the table of articles as other
-- workers left it between the look for a duplicate and the insertion.
pub record Moment : Type 0 where
  pub now : ℕ
  pub evaluated : ℕ
  pub pushed : ℕ
  pub insert_fails : Bool
  pub find_fails : Bool
  pub seeds_fail : Bool
  pub assign_fails : Bool
  pub count_fails : Bool
  pub flag_fails : Bool
  pub push_faults : Faults
  pub racing : ArticleDb → ArticleDb

abbrev pub or_now : Option ℕ → ℕ → ℕ
or_now none now = now
or_now (some t) now = t

abbrev pub usable_title : String → Bool
usable_title title = if str_eq title "" then false else not (ltb (length (codes title)) 6)

-- The fields of the row, once the link and the title are accepted.
unfoldable pub filled :
    Language → Outside → Feed → Candidate → ℕ → String → String → String → ArticleInput
filled lang out feed c now normalized canonical title =
    let summary = lang.truncate (lang.strip_html c.summary) 600 in
    let content = lang.sanitize_html c.content in
    let norm_title = lang.normalized_title title in
    let tags = lang.classify feed title (summary +++ " " +++ content) canonical in
    record {
      id = stable_id out.texts "art" (canonical +++ feed.id);
      source_id = feed.source_id;
      feed_id = feed.id;
      external_guid = c.external_guid;
      canonical_url = canonical;
      original_url = c.link;
      normalized_url = normalized;
      title = title;
      normalized_title = norm_title;
      summary = summary;
      feed_content = content;
      image_url = if str_eq c.image_url "" then lang.first_image content else c.image_url;
      author = lang.trim c.author;
      published_at = c.published_at;
      updated_at = c.updated_at;
      discovered_at = now;
      language = lang.detect_language feed.language title summary;
      content_hash = lang.content_hash norm_title summary;
      categories = tags.0;
      provinces = tags.1;
      opportunity = lang.opportunity feed title summary;
      title_fingerprint = lang.fingerprint norm_title (or_now c.published_at now);
    }

-- `none` is a rejected item: a link that cannot be used, or a title under six characters.
unfoldable pub prepare : Language → Outside → Feed → Candidate → ℕ → Option ArticleInput
unfolding filled
prepare lang out feed c now =
    let title = lang.trim (lang.strip_html c.title) in
    elim (lang.canonicalize_url c.link) [
      | none ↦ none
      | some urls ↦
          if usable_title title then some (filled lang out feed c now urls.0 urls.1 title) else none
    ]

abbrev pub near_dup_scan_limit : ℕ
near_dup_scan_limit = 300

abbrev pub text_of : Option String → String
text_of none = ""
text_of (some s) = s

abbrev pub or_text : String → String → String
or_text s t = if str_eq s "" then t else s

-- The cluster of a story: one with its key, one with a title alike, or a new one.
unfoldable pub cluster_for : Language → Outside → Moment → ArticleInput → ArticleDb → String
cluster_for lang out m x db =
    let since = x.discovered_at - 36 * hour in
    let exact = text_of (find_cluster_candidate x.title_fingerprint since db.clusters) in
    let alike =
      if m.seeds_fail
      then ""
      else near_duplicate_cluster lang.fields lang.trim lang.normalized_title x.normalized_title
          (recent_clustered_seeds since near_dup_scan_limit db.articles) in
    or_text exact (or_text alike (stable_id out.texts "cluster" x.title_fingerprint))

unfoldable pub attach_to_cluster :
    Language → Outside → Moment → ArticleInput → String → ArticleDb → ArticleDb
unfolding cluster_for
attach_to_cluster lang out m x article db =
    if str_eq x.title_fingerprint "" || (m.find_fails || m.assign_fails)
    then db
    else assign_cluster article (cluster_for lang out m x db) x.title_fingerprint
        (or_now x.published_at x.discovered_at) db
