-- ===== src/Api/PushSendLaws.antt =====
-- backend/internal/httpapi/admin.go: when handleAdminPushSend hands a message to the sender.
use afghanistan_news.Base.{
  Bool, true, false, ◌||◌, none, some, List, [], ◌∷◌, ◌≡◌, ◌≢◌, refl, inl, inr, str_eq, eq_refl,
  any, any-append, Bool-cases, Option-cases, arith,
}
use afghanistan_news.Articles.Rows.{stable_id}
use afghanistan_news.Push.Store.{PushEvent, PushDb, push_event_exists, record_push_event}
use afghanistan_news.Api.Session.{SessionClaims, can}
use afghanistan_news.Api.Console.{ok_200, internal_500}
use afghanistan_news.Api.PushSend.{
  PushRequest, PushCalls, PushTables, admin_dedup_key, admin_event, handed_over, stored,
  send_and_store, handle_push_send,
}

-- A message goes out only for an operator who may send pushes, who has confirmed it, and where the
-- tables hold no event with the same key.
pub handle_push_send-messages :
    (o : PushCalls) (claims : SessionClaims) (q : PushRequest) (t : PushTables)
    → (handle_push_send o claims q t).messages ≢ []
    → (can claims.role "push_send" ≡ true)
      × (q.confirm ≡ true)
      × (push_event_exists (admin_dedup_key o.texts q) t.push.events ≡ false)
unfolding handle_push_send
handle_push_send-messages o claims q t h =
    let key = push_event_exists (admin_dedup_key o.texts q) t.push.events in
    elim (Bool-cases (can claims.role "push_send")) [
      | inr e ↦ absurd (h (rw (e, handle_push_send) refl))
      | inl may ↦ elim (Bool-cases q.confirm) [
        | inr e ↦ absurd (h (ground arith))
        | inl sure ↦ elim (Bool-cases key) [
          | inl e ↦ absurd (h (ground arith))
          | inr fresh ↦ (may, sure, fresh)
        ]
      ]
    ]

recorded_exists :
    (e : PushEvent) (db after : PushDb)
    → record_push_event e db ≡ some after
    → push_event_exists e.dedup_key after.events ≡ true
unfolding record_push_event push_event_exists
recorded_exists e db after h = ground (
  arith,
  any-append (λ (f : PushEvent). str_eq f.dedup_key e.dedup_key) db.events (e ∷ []),
  eq_refl e.dedup_key,
)

stored_exists :
    (o : PushCalls) (e : PushEvent) (db after : PushDb)
    → stored o e db ≡ some after
    → push_event_exists e.dedup_key after.events ≡ true
unfolding stored
stored_exists o e db after h = elim (Bool-cases o.record_fails) [
  | inl f ↦ ground arith
  | inr f ↦ recorded_exists e db after (ground arith)
]

event_key :
    (o : PushCalls) (claims : SessionClaims) (q : PushRequest) (db : PushDb)
    → (admin_event o claims q db).dedup_key ≡ admin_dedup_key o.texts q
unfolding admin_event
event_key o claims q db = refl

sent_exists :
    (o : PushCalls) (claims : SessionClaims) (q : PushRequest) (t : PushTables)
    → (send_and_store o claims q t).answer ≡ ok_200
    → push_event_exists (admin_dedup_key o.texts q) (send_and_store o claims q t).tables.push.events
      ≡ true
unfolding send_and_store
sent_exists o claims q t h = elim (Option-cases (stored o (admin_event o claims q t.push) t.push)) [
  | inl n ↦ ground arith
  | inr (after, e) ↦
      let known = stored_exists o (admin_event o claims q t.push) t.push after e in
      rw (e, send_and_store) (rw (event_key o claims q t.push) at known)
]

ok_sends :
    (o : PushCalls) (claims : SessionClaims) (q : PushRequest) (t : PushTables)
    → (handle_push_send o claims q t).answer ≡ ok_200
    → handle_push_send o claims q t ≡ send_and_store o claims q t
unfolding handle_push_send
ok_sends o claims q t h = ground arith

known_silent :
    (o : PushCalls) (claims : SessionClaims) (q : PushRequest) (t : PushTables)
    → push_event_exists (admin_dedup_key o.texts q) t.push.events ≡ true
    → (handle_push_send o claims q t).messages ≡ []
unfolding handle_push_send
known_silent o claims q t h = ground arith

any-or :
    (p q : PushEvent → Bool) (es : List PushEvent)
    → any p es ≡ true
    → any (λ e. p e || q e) es ≡ true
any-or p q [] h = h
any-or p q (e ∷ es) h = ground (arith, any-or p q es)

clash_refused :
    (o : PushCalls) (e : PushEvent) (db : PushDb)
    → any (λ (f : PushEvent). str_eq f.id e.id) db.events ≡ true
    → stored o e db ≡ none
unfolding stored record_push_event
clash_refused o e db h =
    ground (arith, any-or (λ f. str_eq f.id e.id) (λ f. str_eq f.dedup_key e.dedup_key) db.events h)

event_id :
    (o : PushCalls) (claims : SessionClaims) (q : PushRequest) (db : PushDb)
    → (admin_event o claims q db).id ≡ stable_id o.texts "push" (admin_dedup_key o.texts q)
unfolding admin_event
event_id o claims q db = refl

unstored :
    (o : PushCalls) (claims : SessionClaims) (q : PushRequest) (t : PushTables)
    → stored o (admin_event o claims q t.push) t.push ≡ none
    → send_and_store o claims q t
      ≡ record { tables = t; answer = internal_500; messages = handed_over o q }
unfolding send_and_store
unstored o claims q t e = rw (e, send_and_store) refl

-- After a push was answered with 200, the same request sends nothing, whoever makes it and
-- whatever fails in the second call, as long as both calls trim texts alike.
pub no_second_send :
    (o again : PushCalls) (claims other : SessionClaims) (q : PushRequest) (t : PushTables)
    → again.texts ≡ o.texts
    → (handle_push_send o claims q t).answer ≡ ok_200
    → (handle_push_send again other q (handle_push_send o claims q t).tables).messages ≡ []
no_second_send o again claims other q t same h =
    let run = ok_sends o claims q t h in
    let known = sent_exists o claims q t (rw run at h) in
    known_silent again other q (handle_push_send o claims q t).tables (rw (same, run) known)

-- For a confirmed request with a title and a topic, by an operator who may send pushes, where no
-- event has its key but the id of the new event is taken, as for two titles that differ in their
-- case only: the message goes out, the answer is an error, and the tables are as before, so that
-- the same request sends it again.
pub clashing_id_resends :
    (o : PushCalls) (claims : SessionClaims) (q : PushRequest) (t : PushTables)
    → can claims.role "push_send" ≡ true
    → q.confirm ≡ true
    → str_eq (o.texts.trim q.title) "" ≡ false
    → str_eq (o.texts.trim q.topic) "" ≡ false
    → o.exists_fails ≡ false
    → push_event_exists (admin_dedup_key o.texts q) t.push.events ≡ false
    → any
        (λ (e : PushEvent). str_eq e.id (stable_id o.texts "push" (admin_dedup_key o.texts q)))
        t.push.events
      ≡ true
    → handle_push_send o claims q t
      ≡ record { tables = t; answer = internal_500; messages = handed_over o q }
unfolding handle_push_send
clashing_id_resends o claims q t may sure title topic works fresh clash =
    ground
      (arith, unstored o claims q t (clash_refused o (admin_event o claims q t.push) t.push clash))
