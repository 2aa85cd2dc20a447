-- ===== src/Push/Store.antt =====
-- backend/internal/store/push.go: the tables push_registrations, push_subscriptions and push_events.
use Prim.Native.String.{slice, ◌++◌ as ◌+++◌}
use afghanistan_news.Base.{
  ℕ, String, Bool, true, false, not, ◌&&◌, ◌||◌, Option, none, some, List, [], ◌∷◌, ◌++◌, map, leb,
  str_eq, if◌then◌else◌, any, find, select, update_where, count_where,
}

pub record PushRegistration : Type 0 where
  pub id : String
  pub token : String
  pub platform : String
  pub app_version : String
  pub language : String
  pub active : Bool
  pub updated_at : ℕ

pub record Subscription : Type 0 where
  pub registration_id : String
  pub topic : String

pub data PushStatus : Type 0 where
  queued failed dry_run sent : PushStatus

pub record PushEvent : Type 0 where
  pub id : String
  pub article_id : String
  pub topic : String
  pub title : String
  pub body : String
  pub sent_at : Option ℕ
  pub status : PushStatus
  pub dedup_key : String
  pub audience : ℕ
  pub actor : String
  pub created_at : ℕ

pub record PushDb : Type 0 where
  pub registrations : List PushRegistration
  pub subscriptions : List Subscription
  pub events : List PushEvent

abbrev pub is_seen : String → List String → Bool
is_seen t seen = any (λ u. str_eq u t) seen

-- The loop of dedupeTopics with its map of the topics seen so far.
unfoldable pub dedupe_from : List String → List String → List String
dedupe_from seen [] = []
dedupe_from seen (t ∷ ts) = elim (str_eq t "" || is_seen t seen) [
  | true ↦ dedupe_from seen ts
  | false ↦ t ∷ dedupe_from (t ∷ seen) ts
]

unfoldable pub dedupe_topics : List String → List String
dedupe_topics ts = dedupe_from [] ts

-- Tokens are ASCII, so a byte is a character.
unfoldable pub short_token : String → String
short_token token = slice token 0 16

abbrev pub subscription : String → String → Subscription
subscription id topic = record { registration_id = id; topic = topic }

abbrev pub refreshed : String → String → String → ℕ → PushRegistration → PushRegistration
refreshed platform app_version language now r = record r {
  platform = platform;
  app_version = app_version;
  language = language;
  active = true;
  updated_at = now;
}

abbrev pub without : String → List Subscription → List Subscription
without id rows = select (λ (s : Subscription). not (str_eq s.registration_id id)) rows

abbrev pub has_registration : String → List PushRegistration → Bool
has_registration id rows = any (λ (r : PushRegistration). str_eq r.id id) rows

-- The registration's row: a known token is refreshed and loses its topics, a new one is inserted
-- under a key cut from the token. `none` is the error of a key that is taken.
unfoldable pub place_device :
    Option PushRegistration
    → String
    → String
    → String
    → String
    → ℕ
    → PushDb
    → Option (String × PushDb)
unfolding short_token
place_device (some r) token platform app_version language now db = some (
  r.id,
  record db {
    registrations =
        update_where (λ (q : PushRegistration). str_eq q.id r.id)
          (refreshed platform app_version language now) db.registrations;
    subscriptions = without r.id db.subscriptions;
  },
)
place_device none token platform app_version language now db =
    let id = "dev_" +++ short_token token in
    if has_registration id db.registrations
    then none
    else some (
      id,
      record db {
        registrations =
            db.registrations
            ++ record {
              id = id;
              token = token;
              platform = platform;
              app_version = app_version;
              language = language;
              active = true;
              updated_at = now;
            }
              ∷ [];
      },
    )

abbrev pub subscribe : List String → Option (String × PushDb) → Option (String × PushDb)
subscribe topics none = none
subscribe topics (some (id, db)) =
    some (id, record db { subscriptions = db.subscriptions ++ map (subscription id) topics })

unfoldable pub register_push_device :
    String → String → String → String → List String → ℕ → PushDb → Option (String × PushDb)
unfolding place_device dedupe_topics
register_push_device token platform app_version language topics now db =
    subscribe (dedupe_topics topics) (
      place_device (find (λ (r : PushRegistration). str_eq r.token token) db.registrations) token
        platform app_version language now db)

unfoldable pub unregister_push_device : String → ℕ → PushDb → PushDb
unregister_push_device id now db = record db {
  registrations =
      update_where (λ (r : PushRegistration). str_eq r.id id)
        (λ r. record r { active = false; updated_at = now }) db.registrations;
  subscriptions = without id db.subscriptions;
}

unfoldable pub deactivate_push_token : String → ℕ → PushDb → PushDb
deactivate_push_token token now db = record db {
  registrations =
      update_where (λ (r : PushRegistration). str_eq r.token token)
        (λ r. record r { active = false; updated_at = now }) db.registrations;
}

abbrev pub follows : String → List Subscription → PushRegistration → Bool
follows topic subs r =
    any (λ (s : Subscription). str_eq s.registration_id r.id && str_eq s.topic topic) subs

unfoldable pub push_audience_size : String → PushDb → ℕ
push_audience_size topic db =
    if str_eq topic "" || str_eq topic "all"
    then count_where (λ (r : PushRegistration). r.active) db.registrations
    else count_where (λ (r : PushRegistration). r.active && follows topic db.subscriptions r)
        db.registrations

abbrev pub is_sent : PushStatus → Bool
is_sent sent = true
is_sent _ = false

unfoldable pub push_event_exists : String → List PushEvent → Bool
push_event_exists key events = any (λ (e : PushEvent). str_eq e.dedup_key key) events

unfoldable pub count_push_events_since : ℕ → String → List PushEvent → ℕ
count_push_events_since since topic events =
    if str_eq topic ""
    then count_where (λ (e : PushEvent). leb since e.created_at && is_sent e.status) events
    else count_where
        (λ (e : PushEvent). leb since e.created_at && (str_eq e.topic topic && is_sent e.status))
        events

-- UNIQUE (dedup_key), and the key of the row; `none` is the error.
unfoldable pub record_push_event : PushEvent → PushDb → Option PushDb
record_push_event e db =
    if any (λ (f : PushEvent). str_eq f.id e.id || str_eq f.dedup_key e.dedup_key) db.events
    then none
    else some (record db { events = db.events ++ e ∷ [] })
