-- ===== src/Push/Notify.antt =====
-- backend/internal/ingest/pipeline.go: pushTopicFor and enqueuePush.
use Prim.Native.String.{◌++◌ as ◌+++◌}
use afghanistan_news.Base.{
  ℕ, ◌-◌, ◌*◌, String, Bool, ◌&&◌, ◌||◌, Option, none, some, ltb, leb, str_eq, if◌then◌else◌,
}
use afghanistan_news.Model.{hour}
use afghanistan_news.Articles.Rows.{Texts, stable_id, ArticleInput}
use afghanistan_news.Model.{Feed}
use afghanistan_news.Push.Store.{
  PushStatus, failed, dry_run, sent, PushEvent, PushDb, push_event_exists, count_push_events_since,
  push_audience_size, record_push_event,
}

unfoldable pub push_topic_for : Feed → String
push_topic_for feed =
    if str_eq feed.scope "afghanistan"
      || (str_eq feed.scope "afghanistan-province" || str_eq feed.scope "afghanistan-related")
    then "breaking-afghanistan"
    else if str_eq feed.scope "global" || str_eq feed.scope "country"
    then "world-breaking"
    else "breaking-afghanistan"

unfoldable pub dedup_key_for : Feed → ArticleInput → String → String
unfolding push_topic_for
dedup_key_for feed x article =
    push_topic_for feed
    +++ "|"
    +++ (if str_eq x.title_fingerprint "" then article else x.title_fingerprint)

pub record Message : Type 0 where
  pub topic : String
  pub title : String
  pub body : String
  pub article_id : String
  pub score : ℕ

-- The answer of a push.Sender; a delivery says whether it was dry.
pub data Sending : Type 0 where
  send_error : Sending
  delivered : Bool → Sending

-- The statements that fail in one call.
pub record Faults : Type 0 where
  pub exists_fails : Bool
  pub hour_fails : Bool
  pub day_fails : Bool
  pub audience_fails : Bool
  pub record_fails : Bool

pub record PushOptions : Type 0 where
  pub dry : Bool
  pub max_per_hour : ℕ
  pub max_per_day : ℕ

-- What enqueuePush calls: the sender, and normalize.Truncate(body, 180).
pub record Outside : Type 0 where
  pub texts : Texts
  pub send : Message → Sending
  pub truncate_body : String → String

abbrev pub status_after : Sending → Bool → PushStatus
status_after send_error dry = failed
status_after (delivered d) dry = if dry || d then dry_run else sent

abbrev pub sent_time : PushStatus → ℕ → Option ℕ
sent_time sent now = some now
sent_time _ now = none

-- The count is 0 where the statement fails: the error is dropped.
unfoldable pub count_or_zero : Bool → ℕ → String → PushDb → ℕ
unfolding count_push_events_since
count_or_zero fails since topic db =
    if fails then 0 else count_push_events_since since topic db.events

unfoldable pub throttled : ℕ → ℕ → Bool
throttled max count = ltb 0 max && leb max count

abbrev pub stored_or : PushDb → Option PushDb → PushDb
stored_or db none = db
stored_or db (some after) = after

unfoldable pub message_for : Outside → Feed → ArticleInput → String → ℕ → Message
unfolding push_topic_for
message_for out feed x article score = record {
  topic = push_topic_for feed;
  title = x.title;
  body = out.truncate_body (if str_eq x.summary "" then feed.source_name else x.summary);
  article_id = article;
  score = score;
}

unfoldable pub event_for :
    Outside → PushOptions → Faults → Feed → ArticleInput → String → ℕ → ℕ → PushDb → PushEvent
unfolding message_for dedup_key_for push_audience_size
event_for out opts faults feed x article score now db =
    let m = message_for out feed x article score in
    let status = status_after (out.send m) opts.dry in
    record {
      id = stable_id out.texts "push" (dedup_key_for feed x article);
      article_id = article;
      topic = m.topic;
      title = m.title;
      body = m.body;
      sent_at = sent_time status now;
      status = status;
      dedup_key = dedup_key_for feed x article;
      audience = if faults.audience_fails then 0 else push_audience_size m.topic db;
      actor = "ingest-worker";
      created_at = now;
    }

-- The message handed to the sender, if any, and the tables afterwards.
unfoldable pub enqueue_push :
    Outside
    → PushOptions
    → Faults
    → Feed
    → ArticleInput
    → String
    → ℕ
    → ℕ
    → PushDb
    → PushDb × Option Message
unfolding message_for event_for dedup_key_for count_or_zero throttled
enqueue_push out opts faults feed x article score now db =
    if faults.exists_fails || push_event_exists (dedup_key_for feed x article) db.events
    then (db, none)
    else if throttled opts.max_per_hour (count_or_zero faults.hour_fails (now - hour) "" db)
    then (db, none)
    else if throttled opts.max_per_day (count_or_zero faults.day_fails (now - 24 * hour) "" db)
    then (db, none)
    else (
      if faults.record_fails
          then db
          else stored_or db
              (record_push_event (event_for out opts faults feed x article score now db) db),
      some (message_for out feed x article score),
    )
