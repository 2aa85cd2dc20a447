-- ===== src/Api/Console.antt =====
-- backend/internal/httpapi/admin.go: requireAction and handleAdminArticleUpdate. A handler turns the
-- tables into the tables and an answer; the body is decoded already.
use afghanistan_news.Base.{
  ℕ, String, Bool, true, false, not, ◌&&◌, ◌||◌, Option, none, some, List, ◌∷◌, str_eq,
  if◌then◌else◌,
}
use afghanistan_news.Model.{active, hidden}
use afghanistan_news.Articles.Rows.{
  ArticleDb, set_article_breaking, set_article_status, reclassify_article,
}
use afghanistan_news.Api.Session.{
  SessionClaims, Crypto, SessionManager, Credentials, require_auth, can,
}

-- A row of admin_audit_log.
pub record AuditEntry : Type 0 where
  pub actor : String
  pub action : String
  pub entity : String
  pub entity_id : String
  pub after : String

pub data Answer : Type 0 where
  ok_200 bad_request_400 unauthorized_401 forbidden_403 conflict_409 internal_500 : Answer

pub record Tables : Type 0 where
  pub articles : ArticleDb
  pub audits : List AuditEntry

-- The statements of one call that fail.
pub record Failing : Type 0 where
  pub breaking_fails : Bool
  pub status_fails : Bool
  pub reclassify_fails : Bool
  pub audit_fails : Bool
  pub card_fails : Bool

pub record ArticleUpdate : Type 0 where
  pub breaking : Option Bool
  pub status : String
  pub category_id : String
  pub province_id : String

-- Either an early answer, or the tables with which the handler goes on.
pub data Stage : Type 0 where
  answered : Tables → Answer → Stage
  go_on : Tables → Stage

-- _ = s.store.Audit(…): an error is dropped.
unfoldable pub audit : Failing → SessionClaims → String → String → String → Tables → Tables
audit f claims action id after t = if f.audit_fails then t else record t {
  audits =
      record {
        actor = claims.username;
        action = action;
        entity = "article";
        entity_id = id;
        after = after;
      }
      ∷ t.audits;
}

-- fmt.Sprint of a bool
abbrev pub bool_text : Bool → String
bool_text true = "true"
bool_text false = "false"

unfoldable pub breaking_stage : Failing → SessionClaims → String → Option Bool → Tables → Stage
unfolding audit
breaking_stage f claims id none t = go_on t
breaking_stage f claims id (some b) t =
    if not (can claims.role "breaking")
    then answered t forbidden_403
    else if f.breaking_fails
    then answered t internal_500
    else go_on (
        audit f claims "BREAKING_SET" id (bool_text b)
          (record t { articles = set_article_breaking id b (if b then 100 else 0) t.articles }))

unfoldable pub status_stage : Failing → SessionClaims → String → String → Tables → Stage
unfolding audit
status_stage f claims id status t =
    if str_eq status ""
    then go_on t
    else if not (str_eq status "HIDDEN" || str_eq status "ACTIVE")
    then answered t bad_request_400
    else if f.status_fails
    then answered t internal_500
    else go_on (
        audit f claims "ARTICLE_STATUS" id status (record t {
          articles =
              set_article_status id (if str_eq status "HIDDEN" then hidden else active) t.articles;
        }))

-- `known_province` is model.ProvinceByID, the table of provinces; `joined` the text of the audit.
unfoldable pub classify_stage :
    (String → Bool)
    → (String → String → String)
    → Failing
    → SessionClaims
    → String
    → String
    → String
    → Tables
    → Stage
unfolding audit
classify_stage known_province joined f claims id category province t =
    if str_eq category "" && str_eq province ""
    then go_on t
    else if not (str_eq province "") && not (known_province province)
    then answered t bad_request_400
    else if f.reclassify_fails
    then answered t internal_500
    else go_on (
        audit f claims "ARTICLE_RECLASSIFIED" id (joined category province)
          (record t { articles = reclassify_article id category province t.articles }))

abbrev pub then_stage : Stage → (Tables → Stage) → Stage
then_stage (answered t a) next = answered t a
then_stage (go_on t) next = next t

-- The last read and the answer.
abbrev pub finish : Failing → Stage → Tables × Answer
finish f (answered t a) = (t, a)
finish f (go_on t) = (t, if f.card_fails then internal_500 else ok_200)

module _ (known_province : String → Bool) (joined : String → String → String) where
  unfoldable pub handle_article_update :
      Failing → SessionClaims → String → ArticleUpdate → Tables → Tables × Answer
  handle_article_update f claims id body t = finish f (
      then_stage
        (then_stage (breaking_stage f claims id body.breaking t)
          (status_stage f claims id body.status))
        (classify_stage known_province joined f claims id body.category_id body.province_id))

  -- PATCH /admin/api/articles/{id}, behind requireAuth.
  unfoldable pub patch_article :
      Crypto
      → SessionManager
      → ℕ
      → Credentials
      → Failing
      → String
      → ArticleUpdate
      → Tables
      → Tables × Answer
  unfolding handle_article_update
  patch_article c m now r f id body t = elim (require_auth c m now r) [
    | none ↦ (t, unauthorized_401)
    | some claims ↦ handle_article_update f claims id body t
  ]
