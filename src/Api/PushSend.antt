-- ===== src/Api/PushSend.antt =====
-- backend/internal/httpapi/admin.go: handleAdminPushSend, with the messages that it hands to the sender.
-- The sending that fails is a value of Sending; `pusher` is none where the server has no sender.
use Prim.Native.String.{◌++◌ as ◌+++◌}
use afghanistan_news.Base.{
  ℕ, String, Bool, true, not, ◌||◌, Option, none, some, List, [], ◌∷◌, str_eq, if◌then◌else◌,
}
use afghanistan_news.Articles.Rows.{Texts, stable_id, ArticleDb, set_article_breaking}
use afghanistan_news.Push.Store.{
  PushStatus, failed, dry_run, sent, PushEvent, PushDb, push_event_exists, push_audience_size,
  record_push_event,
}
use afghanistan_news.Push.Notify.{Message, Sending, send_error, delivered, sent_time}
use afghanistan_news.Api.Session.{SessionClaims, can}
use afghanistan_news.Api.Console.{
  Answer, ok_200, bad_request_400, forbidden_403, conflict_409, internal_500,
}

pub record PushRequest : Type 0 where
  pub article_id : String
  pub topic : String
  pub title : String
  pub body : String
  pub confirm : Bool

-- What the handler calls: texts, truncateText(s, 300), the sender, the time, and what fails.
pub record PushCalls : Type 0 where
  pub texts : Texts
  pub truncate : String → String
  pub pusher : Option (Message → Sending)
  pub now : ℕ
  pub exists_fails : Bool
  pub audience_fails : Bool
  pub record_fails : Bool
  pub breaking_fails : Bool

pub record PushTables : Type 0 where
  pub push : PushDb
  pub articles : ArticleDb

pub record Sent : Type 0 where
  pub tables : PushTables
  pub answer : Answer
  pub messages : List Message

-- firstNonEmpty of two texts.
unfoldable pub first_non_empty : Texts → String → String → String
first_non_empty tx a b =
    if not (str_eq (tx.trim a) "")
    then tx.trim a
    else if not (str_eq (tx.trim b) "")
    then tx.trim b
    else ""

unfoldable pub admin_dedup_key : Texts → PushRequest → String
unfolding first_non_empty
admin_dedup_key tx q = "admin|" +++ q.topic +++ "|" +++ first_non_empty tx q.article_id q.title

unfoldable pub admin_message : PushCalls → PushRequest → Message
admin_message o q = record {
  topic = q.topic;
  title = q.title;
  body = o.truncate q.body;
  article_id = q.article_id;
  score = 0;
}

-- The outcome of the sender, and what it was handed.
unfoldable pub push_outcome : PushCalls → PushRequest → PushStatus
push_outcome o q = elim (o.pusher) [
  | none ↦ dry_run
  | some send ↦ elim (send (admin_message o q)) [
    | send_error ↦ failed
    | delivered dry ↦ if dry then dry_run else sent
  ]
]

unfoldable pub handed_over : PushCalls → PushRequest → List Message
handed_over o q = elim (o.pusher) [ none ↦ [] | some send ↦ admin_message o q ∷ [] ]

unfoldable pub admin_event : PushCalls → SessionClaims → PushRequest → PushDb → PushEvent
unfolding admin_dedup_key push_outcome
admin_event o claims q db = record {
  id = stable_id o.texts "push" (admin_dedup_key o.texts q);
  article_id = q.article_id;
  topic = q.topic;
  title = q.title;
  body = o.truncate q.body;
  sent_at = sent_time (push_outcome o q) o.now;
  status = push_outcome o q;
  dedup_key = admin_dedup_key o.texts q;
  audience = if o.audience_fails then 0 else push_audience_size q.topic db;
  actor = claims.username;
  created_at = o.now;
}

-- _ = s.store.SetArticleBreaking(…) after the event is stored.
unfoldable pub mark_breaking : PushCalls → String → ArticleDb → ArticleDb
mark_breaking o id articles =
    if str_eq id "" || o.breaking_fails then articles else set_article_breaking id true 100 articles

-- RecordPushEvent, with the error of the statement or of a constraint.
unfoldable pub stored : PushCalls → PushEvent → PushDb → Option PushDb
stored o e db = if o.record_fails then none else record_push_event e db

-- The message goes out before the event is stored.
unfoldable pub send_and_store : PushCalls → SessionClaims → PushRequest → PushTables → Sent
unfolding admin_event mark_breaking handed_over stored
send_and_store o claims q t = elim (stored o (admin_event o claims q t.push) t.push) [
  | none ↦ record { tables = t; answer = internal_500; messages = handed_over o q }
  | some push ↦ record {
    tables = record { push = push; articles = mark_breaking o q.article_id t.articles };
    answer = ok_200;
    messages = handed_over o q;
  }
]

abbrev pub refuse : PushTables → Answer → Sent
refuse t a = record { tables = t; answer = a; messages = [] }

unfoldable pub handle_push_send : PushCalls → SessionClaims → PushRequest → PushTables → Sent
unfolding send_and_store
handle_push_send o claims q t =
    if not (can claims.role "push_send")
    then refuse t forbidden_403
    else if not q.confirm
    then refuse t bad_request_400
    else if str_eq (o.texts.trim q.title) "" || str_eq (o.texts.trim q.topic) ""
    then refuse t bad_request_400
    else if o.exists_fails
    then refuse t internal_500
    else if push_event_exists (admin_dedup_key o.texts q) t.push.events
    then refuse t conflict_409
    else send_and_store o claims q t
