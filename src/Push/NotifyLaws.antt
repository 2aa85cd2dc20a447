-- ===== src/Push/NotifyLaws.antt =====
-- Deduplication and throttling of notifications (enqueuePush in backend/internal/ingest/pipeline.go).
use afghanistan_news.Base.{
  ℕ, suc, ◌-◌, ◌*◌, ◌≤◌, ◌<◌, ◌≡◌, refl, inl, inr, Bool-cases, String, Bool, true, false, ◌&&◌,
  ◌||◌, Option, none, some, [], ◌∷◌, arith, leb, str_eq, eq_refl, if◌then◌else◌, any,
  count_where-append, any-append, any-either,
}
use afghanistan_news.Model.{hour, Feed}
use afghanistan_news.Articles.Rows.{ArticleInput, stable_id}
use afghanistan_news.Push.Store.{
  PushEvent, PushDb, is_sent, push_event_exists, count_push_events_since, record_push_event,
}
use afghanistan_news.Push.Notify.{
  dedup_key_for, Message, Faults, PushOptions, Outside, count_or_zero, throttled, stored_or,
  event_for, message_for, enqueue_push,
}

-- One more event adds at most one to the count.
count-record_le :
    (since : ℕ) (e : PushEvent) (db : PushDb)
    → count_push_events_since since "" (stored_or db (record_push_event e db)).events
      ≤ suc (count_push_events_since since "" db.events)
unfolding count_push_events_since record_push_event
count-record_le since e db = ground (
  arith,
  count_where-append (λ (f : PushEvent). leb since f.created_at && is_sent f.status) db.events
      (e ∷ []),
)

count-stored_le :
    (fails : Bool) (since : ℕ) (e : PushEvent) (db : PushDb)
    → count_push_events_since since ""
        (if fails then db else stored_or db (record_push_event e db)).events
      ≤ suc (count_push_events_since since "" db.events)
count-stored_le true since e db = omega arith
count-stored_le false since e db = count-record_le since e db

-- The early returns leave the tables alone; past them the last test has failed.
abbrev guarded : Bool → Bool → Bool → PushDb → PushDb → Message → PushDb × Option Message
guarded b c d db after m =
    if b then (db, none) else if c then (db, none) else if d then (db, none) else (after, some m)

guarded_le :
    (n : PushDb → ℕ) (maximum : ℕ) (b c d : Bool) (db after : PushDb) (m : Message)
    → n db ≤ maximum
    → (b ≡ false → c ≡ false → d ≡ false → n after ≤ maximum)
    → n (guarded b c d db after m).0 ≤ maximum
guarded_le n maximum true c d db after m h f = h
guarded_le n maximum false true d db after m h f = h
guarded_le n maximum false false true db after m h f = h
guarded_le n maximum false false false db after m h f = f refl refl refl

room :
    (maximum count after : ℕ) (fails : Bool)
    → 0 < maximum
    → fails ≡ false
    → throttled maximum (if fails then 0 else count) ≡ false
    → after ≤ suc count
    → after ≤ maximum
unfolding throttled
room maximum count after fails pos ok e h = ground arith

-- Where both caps are set, the sent notifications of the last hour and of the last day can be
-- counted, and they are within the caps, they are within the caps after enqueuePush.
pub caps_kept :
    (out : Outside) (opts : PushOptions) (faults : Faults) (feed : Feed) (x : ArticleInput)
    → (article : String) (score now : ℕ) (db : PushDb) → 0 < opts.max_per_hour
    → 0 < opts.max_per_day
    → faults.hour_fails ≡ false
    → faults.day_fails ≡ false
    → count_push_events_since (now - hour) "" db.events ≤ opts.max_per_hour
    → count_push_events_since (now - 24 * hour) "" db.events ≤ opts.max_per_day
    → let after = (enqueue_push out opts faults feed x article score now db).0.events in
      (count_push_events_since (now - hour) "" after ≤ opts.max_per_hour)
      × (count_push_events_since (now - 24 * hour) "" after ≤ opts.max_per_day)
unfolding enqueue_push count_or_zero
caps_kept out opts faults feed x article score now db pos pos' ok ok' h h' =
    let e = event_for out opts faults feed x article score now db in
    let m = message_for out feed x article score in
    let stop = faults.exists_fails || push_event_exists (dedup_key_for feed x article) db.events in
    let hourly = throttled opts.max_per_hour (count_or_zero faults.hour_fails (now - hour) "" db) in
    let daily =
      throttled opts.max_per_day (count_or_zero faults.day_fails (now - 24 * hour) "" db) in
    let after = if faults.record_fails then db else stored_or db (record_push_event e db) in
    (
      guarded_le (λ (d : PushDb). count_push_events_since (now - hour) "" d.events)
          opts.max_per_hour stop hourly daily db after m h
          (λ a b c.
            room opts.max_per_hour _ _ faults.hour_fails pos ok b
              (count-stored_le faults.record_fails (now - hour) e db)),
      guarded_le (λ (d : PushDb). count_push_events_since (now - 24 * hour) "" d.events)
          opts.max_per_day stop hourly daily db after m h'
          (λ a b c.
            room opts.max_per_day _ _ faults.day_fails pos' ok' c
              (count-stored_le faults.record_fails (now - 24 * hour) e db)),
    )

handed :
    (b c d : Bool) (db after : PushDb) (m m' : Message)
    → (guarded b c d db after m).1 ≡ some m'
    → (guarded b c d db after m).0 ≡ after
handed true c d db after m m' h = ground arith
handed false true d db after m m' h = ground arith
handed false false true db after m m' h = ground arith
handed false false false db after m m' h = refl

-- A key that is known ends the call at its first test.
stops :
    (out : Outside) (opts : PushOptions) (faults : Faults) (feed : Feed) (x : ArticleInput)
    → (article : String) (score now : ℕ) (db : PushDb)
    → push_event_exists (dedup_key_for feed x article) db.events ≡ true
    → enqueue_push out opts faults feed x article score now db ≡ (db, none)
unfolding enqueue_push
stops out opts faults feed x article score now db h =
    rw h
      (elim faults.exists_fails
        as (λ b.
          guarded (b || true)
            (throttled opts.max_per_hour (count_or_zero faults.hour_fails (now - hour) "" db))
            (throttled opts.max_per_day (count_or_zero faults.day_fails (now - 24 * hour) "" db)) db
            (if faults.record_fails
              then db
              else stored_or db
                  (record_push_event (event_for out opts faults feed x article score now db) db))
            (message_for out feed x article score)
          ≡ (db, none)) [ true ↦ refl | false ↦ refl ])

exists-record :
    (e : PushEvent) (db : PushDb)
    → any (λ (f : PushEvent). str_eq f.id e.id) db.events ≡ false
    → push_event_exists e.dedup_key (stored_or db (record_push_event e db)).events ≡ true
unfolding push_event_exists record_push_event
exists-record e db h = elim (Bool-cases (push_event_exists e.dedup_key db.events)) [
  | inl t ↦
      rw
        (any-either (λ (f : PushEvent). str_eq f.id e.id)
          (λ (f : PushEvent). str_eq f.dedup_key e.dedup_key) db.events h)
        (rw t t)
  | inr t ↦
      rw
        (any-either (λ (f : PushEvent). str_eq f.id e.id)
          (λ (f : PushEvent). str_eq f.dedup_key e.dedup_key) db.events h)
        (rw t (
          rw (any-append (λ (f : PushEvent). str_eq f.dedup_key e.dedup_key) db.events (e ∷ []))
            (ground (arith, eq_refl e.dedup_key))))
]

-- Where enqueuePush hands a message to the sender, the statement that stores its event does not
-- fail, and no other event has the id of the new one, no later call for the same feed and article
-- hands over another or changes the tables, whatever the settings, the faults and the clock then.
pub one_push_per_story :
    (out : Outside) (opts opts' : PushOptions) (faults faults' : Faults) (feed : Feed)
    → (x : ArticleInput) (article : String) (score score' now now' : ℕ) (db : PushDb) (m : Message)
    → faults.record_fails ≡ false
    → any
        (λ (f : PushEvent). str_eq f.id (stable_id out.texts "push" (dedup_key_for feed x article)))
        db.events
      ≡ false
    → (enqueue_push out opts faults feed x article score now db).1 ≡ some m
    → let after = (enqueue_push out opts faults feed x article score now db).0 in
      enqueue_push out opts' faults' feed x article score' now' after ≡ (after, none)
unfolding enqueue_push event_for
one_push_per_story out opts opts' faults faults' feed x article score score' now now' db m ok fresh
      h =
    let e = event_for out opts faults feed x article score now db in
    let stop = faults.exists_fails || push_event_exists (dedup_key_for feed x article) db.events in
    let hourly = throttled opts.max_per_hour (count_or_zero faults.hour_fails (now - hour) "" db) in
    let daily =
      throttled opts.max_per_day (count_or_zero faults.day_fails (now - 24 * hour) "" db) in
    let after = if faults.record_fails then db else stored_or db (record_push_event e db) in
    let same : (enqueue_push out opts faults feed x article score now db).0 ≡ after =
      handed stop hourly daily db after (message_for out feed x article score) m h in
    let known : push_event_exists (dedup_key_for feed x article) after.events ≡ true =
      rw ok (exists-record e db fresh) in
    rw same (stops out opts' faults' feed x article score' now' after known)
