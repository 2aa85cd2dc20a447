-- ===== src/Articles/Rows.antt =====
-- backend/internal/store/articles.go: ArticleInput, the rows of articles, article_clusters and of the
-- assignments, and the statements that set a flag or a status.
use Prim.Native.String.{slice, ◌++◌ as ◌+++◌}
use afghanistan_news.Base.{
  ℕ, String, Bool, true, false, not, ◌&&◌, Option, none, some, List, [], ◌∷◌, str_eq, if◌then◌else◌,
  update_where, select,
}
use afghanistan_news.Model.{Assignment, ArticleStatus, active, Origin, editor}

-- What the code needs of strings and crypto/sha1: TrimSpace, ToLower, and the hexadecimal digest.
pub record Texts : Type 0 where
  pub trim : String → String
  pub lower : String → String
  pub sha1_hex : String → String

-- StableID in store/feeds.go.
unfoldable pub stable_id : Texts → String → String → String
stable_id tx prefix key = prefix +++ "_" +++ slice (tx.sha1_hex (tx.lower (tx.trim key))) 0 16

pub record Opportunity : Type 0 where
  pub organization : String
  pub location : String
  pub deadline : Option ℕ
  pub employment_type : String
  pub opportunity_type : String
  pub reference_number : String

pub record ArticleInput : Type 0 where
  pub id : String
  pub source_id : String
  pub feed_id : String
  pub external_guid : String
  pub canonical_url : String
  pub original_url : String
  pub normalized_url : String
  pub title : String
  pub normalized_title : String
  pub summary : String
  pub feed_content : String
  pub image_url : String
  pub author : String
  pub published_at : Option ℕ
  pub updated_at : Option ℕ
  pub discovered_at : ℕ
  pub language : String
  pub content_hash : String
  pub categories : List Assignment
  pub provinces : List Assignment
  pub opportunity : Option Opportunity
  pub title_fingerprint : String

pub record Article : Type 0 where
  pub id : String
  pub source_id : String
  pub feed_id : Option String
  pub external_guid : Option String
  pub canonical_url : String
  pub original_url : String
  pub normalized_url : String
  pub title : String
  pub normalized_title : String
  pub summary : Option String
  pub feed_content : Option String
  pub image_url : Option String
  pub author : Option String
  pub published_at : Option ℕ
  pub updated_at : Option ℕ
  pub discovered_at : ℕ
  pub language : String
  pub is_breaking : Bool
  pub breaking_score : ℕ
  pub cluster_id : Option String
  pub content_hash : Option String
  pub status : ArticleStatus

pub record Cluster : Type 0 where
  pub id : String
  pub representative_article_id : String
  pub topic_key : String
  pub first_seen_at : ℕ
  pub last_seen_at : ℕ
  pub article_count : ℕ

-- A row of article_categories or article_provinces.
pub record Tagged : Type 0 where
  pub article_id : String
  pub tag : Assignment

pub record ArticleDb : Type 0 where
  pub articles : List Article
  pub clusters : List Cluster
  pub categories : List Tagged
  pub provinces : List Tagged
  pub opportunities : List (String × Opportunity)

-- A nullable column against a text: NULL equals nothing.
abbrev pub is_text : Option String → String → Bool
is_text none t = false
is_text (some s) t = str_eq s t

abbrev pub is_active : ArticleStatus → Bool
is_active active = true
is_active _ = false

abbrev pub update_article : String → (Article → Article) → ArticleDb → ArticleDb
update_article id f db = record db {
  articles = update_where (λ (a : Article). str_eq a.id id) f db.articles;
}

unfoldable pub set_article_breaking : String → Bool → ℕ → ArticleDb → ArticleDb
set_article_breaking id breaking score =
    update_article id (λ a. record a { is_breaking = breaking; breaking_score = score })

unfoldable pub set_article_status : String → ArticleStatus → ArticleDb → ArticleDb
set_article_status id status = update_article id (λ a. record a { status = status })

-- INSERT … ON CONFLICT (article_id, …) DO UPDATE
unfoldable pub upsert_tag : String → Assignment → List Tagged → List Tagged
upsert_tag id t [] = record { article_id = id; tag = t } ∷ []
upsert_tag id t (r ∷ rs) =
    let rest = upsert_tag id t rs in
    if str_eq r.article_id id && str_eq r.tag.id t.id
    then record { article_id = id; tag = t } ∷ rs
    else r ∷ rest

unfoldable pub upsert_tags : String → List Assignment → List Tagged → List Tagged
upsert_tags id [] rows = rows
upsert_tags id (t ∷ ts) rows = upsert_tags id ts (upsert_tag id t rows)

abbrev pub is_editor : Origin → Bool
is_editor editor = true
is_editor _ = false

-- DELETE … WHERE article_id = $1 AND origin <> 'EDITOR', then the editor's row.
unfoldable pub replace_tags : String → String → List Tagged → List Tagged
replace_tags id tag rows =
    if str_eq tag ""
    then rows
    else upsert_tag id (record { id = tag; confidence = 100; origin = editor })
        (select (λ (r : Tagged). not (str_eq r.article_id id && not (is_editor r.tag.origin))) rows)

unfoldable pub reclassify_article : String → String → String → ArticleDb → ArticleDb
unfolding replace_tags
reclassify_article id category province db = record db {
  categories = replace_tags id category db.categories;
  provinces = replace_tags id province db.provinces;
}
