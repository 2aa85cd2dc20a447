-- ===== src/Articles/Dedup.antt =====
-- backend/internal/store/articles.go: FindDuplicateArticle and InsertArticle. LIMIT 1 takes the first
-- row that matches. Statements that fail and change nothing are in the ingestion's faults.
use Prim.Native.String.{◌++◌ as ◌+++◌}
use afghanistan_news.Base.{
  ℕ, ◌-◌, ◌*◌, String, Bool, false, not, ◌&&◌, Option, none, some, List, [], ◌∷◌, ◌++◌, leb, str_eq,
  if◌then◌else◌, find, any,
}
use afghanistan_news.Model.{hour, active}
use afghanistan_news.Articles.Rows.{
  ArticleInput, Article, ArticleDb, Opportunity, Texts, stable_id, is_text, upsert_tags,
}

pub data Level : Type 0 where
  guid url content_hash title_window race : Level

abbrev pub hit : Level → Option Article → Option (String × Level)
hit l none = none
hit l (some a) = some (a.id, l)

-- The first of two searches that finds a row.
abbrev pub or_next : Option (String × Level) → Option (String × Level) → Option (String × Level)
or_next none next = next
or_next (some h) next = some h

abbrev pub by_guid : String → String → Article → Bool
by_guid feed g a = is_text a.feed_id feed && is_text a.external_guid g

abbrev pub by_url : String → Article → Bool
by_url u a = str_eq a.normalized_url u

abbrev pub by_hash : String → Article → Bool
by_hash h a = is_text a.content_hash h

-- normalized_title = $1 AND discovered_at >= $2, where $1 is the fingerprint.
abbrev pub by_title : String → ℕ → Article → Bool
by_title fingerprint since a = str_eq a.normalized_title fingerprint && leb since a.discovered_at

abbrev pub search : Bool → Level → (Article → Bool) → List Article → Option (String × Level)
search asked l p rows = if asked then hit l (find p rows) else none

abbrev pub some_text : String → Bool
some_text t = not (str_eq t "")

-- `none` is the empty id.
unfoldable pub find_duplicate_article :
    String → String → String → String → String → String → ℕ → List Article → Option (String × Level)
find_duplicate_article feed g normalized canonical hash fingerprint since rows =
    or_next (search (some_text g && some_text feed) guid (by_guid feed g) rows) (
      or_next (search (some_text normalized) url (by_url normalized) rows) (
        or_next (search (some_text canonical) url (by_url canonical) rows) (
          or_next (search (some_text hash) content_hash (by_hash hash) rows)
            (search (some_text fingerprint) title_window (by_title fingerprint since) rows))))

pub data Outcome : Type 0 where
  inserted duplicate : Outcome

-- article_id is empty and the level `race` where another worker inserted the same id first.
pub record InsertResult : Type 0 where
  pub outcome : Outcome
  pub article_id : String
  pub dedup_level : Option Level

abbrev pub null_string : Texts → String → Option String
null_string tx s = if str_eq (tx.trim s) "" then none else some s

unfoldable pub row_of : Texts → ArticleInput → Article
row_of tx x = record {
  id = x.id;
  source_id = x.source_id;
  feed_id = null_string tx x.feed_id;
  external_guid = null_string tx x.external_guid;
  canonical_url = x.canonical_url;
  original_url = x.original_url;
  normalized_url = x.normalized_url;
  title = x.title;
  normalized_title = x.normalized_title;
  summary = null_string tx x.summary;
  feed_content = null_string tx x.feed_content;
  image_url = null_string tx x.image_url;
  author = null_string tx x.author;
  published_at = x.published_at;
  updated_at = x.updated_at;
  discovered_at = x.discovered_at;
  language = x.language;
  is_breaking = false;
  breaking_score = 0;
  cluster_id = none;
  content_hash = null_string tx x.content_hash;
  status = active;
}

unfoldable pub has_article : String → List Article → Bool
has_article id rows = any (λ (a : Article). str_eq a.id id) rows

-- The derivation for an input that comes without an id.
abbrev pub with_id : Texts → ArticleInput → ArticleInput
with_id tx x =
    if str_eq x.id ""
    then record x { id = stable_id tx "art" (x.canonical_url +++ x.feed_id) }
    else x

-- The rows of an article's opportunity; the id is new, so the upsert inserts.
abbrev pub with_opportunity :
    String → Option Opportunity → List (String × Opportunity) → List (String × Opportunity)
with_opportunity id none rows = rows
with_opportunity id (some o) rows = rows ++ (id, o) ∷ []

-- The transaction of InsertArticle: the primary key refuses a second row with the id.
unfoldable pub insert_row : Texts → ArticleInput → ArticleDb → ArticleDb × InsertResult
unfolding row_of has_article
insert_row tx x db =
    if has_article x.id db.articles
    then (db, record { outcome = duplicate; article_id = ""; dedup_level = some race })
    else (
      record db {
        articles = db.articles ++ row_of tx x ∷ [];
        categories = upsert_tags x.id x.categories db.categories;
        provinces = upsert_tags x.id x.provinces db.provinces;
        opportunities = with_opportunity x.id x.opportunity db.opportunities;
      },
      record { outcome = inserted; article_id = x.id; dedup_level = none },
    )

-- The early return of InsertArticle, or its transaction.
unfoldable pub insert_unless :
    Option (String × Level) → Texts → ArticleInput → ArticleDb → ArticleDb × InsertResult
insert_unless none tx x db = insert_row tx x db
insert_unless (some (found, level)) tx x db =
    (db, record { outcome = duplicate; article_id = found; dedup_level = some level })

abbrev pub dedup_window : ℕ
dedup_window = 48 * hour

-- `racing` is the table as another worker left it between the look and the transaction.
unfoldable pub insert_article :
    Texts → ArticleInput → ArticleDb → ArticleDb → ArticleDb × InsertResult
unfolding insert_unless
insert_article tx x db racing =
    let y = with_id tx x in
    insert_unless
      (find_duplicate_article y.feed_id y.external_guid y.normalized_url y.canonical_url
        y.content_hash y.title_fingerprint (y.discovered_at - dedup_window) db.articles)
      tx y racing
