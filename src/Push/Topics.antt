-- ===== src/Push/Topics.antt =====
-- The topics of a device (backend/internal/store/push.go).
use Prim.Native.String.{◌++◌ as ◌+++◌}
use afghanistan_news.Base.{
  ℕ, ◌≡◌, refl, sym, ap, ◌∙◌, inl, inr, Bool-cases, String, Bool, true, false, not, ◌&&◌, ◌||◌,
  Option, none, some, List, [], ◌∷◌, ◌++◌, map, arith, str_eq, eq_iff, eq_refl, if◌then◌else◌, find,
  select, All, count_where,
}
use afghanistan_news.Push.Store.{
  PushRegistration, Subscription, PushDb, is_seen, dedupe_from, dedupe_topics, short_token,
  subscription, without, has_registration, place_device, subscribe, register_push_device,
}

-- How often a topic stands in a list.
abbrev pub occurrences : String → List String → ℕ
occurrences t = count_where (λ u. str_eq u t)

abbrev once_unless_seen : String → List String → List String → ℕ
once_unless_seen t seen ts =
    if str_eq t "" || is_seen t seen then 0 else if is_seen t ts then 1 else 0

dedupe_step :
    (t u : String) (seen us : List String) (b : Bool)
    → (str_eq u "" || is_seen u seen) ≡ b
    → occurrences t (dedupe_from seen us) ≡ once_unless_seen t seen us
    → occurrences t (dedupe_from (u ∷ seen) us) ≡ once_unless_seen t (u ∷ seen) us
    → occurrences t (elim b [ true ↦ dedupe_from seen us | false ↦ u ∷ dedupe_from (u ∷ seen) us ])
      ≡ once_unless_seen t seen (u ∷ us)
dedupe_step t u seen us true h same more = elim (Bool-cases (str_eq u t)) [
  | inl e ↦
      let p = ap (λ s. str_eq s "" || is_seen s seen) ((eq_iff u t).0 e) in
      ground (arith, p, h, same, e)
  | inr e ↦ ground (arith, same, e)
]
dedupe_step t u seen us false h same more = elim (Bool-cases (str_eq u t)) [
  | inl e ↦
      let p = ap (λ s. str_eq s "" || is_seen s seen) ((eq_iff u t).0 e) in
      ground (arith, p, h, more, e)
  | inr e ↦ ground (arith, more, e)
]

dedupe_from_count :
    (t : String) (seen ts : List String)
    → occurrences t (dedupe_from seen ts) ≡ once_unless_seen t seen ts
unfolding dedupe_from
dedupe_from_count t seen [] = ground arith
dedupe_from_count t seen (u ∷ us) =
    dedupe_step t u seen us (str_eq u "" || is_seen u seen) refl (dedupe_from_count t seen us)
      (dedupe_from_count t (u ∷ seen) us)

-- dedupeTopics keeps each non-empty topic of the request exactly once, and nothing else.
pub dedupe_topics_once :
    (t : String) (ts : List String)
    → occurrences t (dedupe_topics ts) ≡ (if not (str_eq t "") && is_seen t ts then 1 else 0)
unfolding dedupe_topics
dedupe_topics_once t ts = ground (arith, dedupe_from_count t [] ts)

abbrev pub topics_of : String → List Subscription → List String
topics_of id subs =
    map (λ (s : Subscription). s.topic)
      (select (λ (s : Subscription). str_eq s.registration_id id) subs)

-- Every subscription belongs to a registration: the foreign key of the table.
abbrev pub IsReferential : PushDb → Type 0
IsReferential db =
    All (λ (s : Subscription). has_registration s.registration_id db.registrations ≡ true)
      db.subscriptions

topics_of-own :
    (id : String) (subs : List Subscription) (ts : List String)
    → topics_of id subs ≡ []
    → topics_of id (subs ++ map (subscription id) ts) ≡ ts
topics_of-own id [] [] h = refl
topics_of-own id [] (t ∷ ts) h = rw (eq_refl id) (ap (λ us. t ∷ us) (topics_of-own id [] ts h))
topics_of-own id (s ∷ subs) ts h = ground (arith, topics_of-own id subs ts)

topics_of-without : (id : String) (subs : List Subscription) → topics_of id (without id subs) ≡ []
topics_of-without id [] = refl
topics_of-without id (s ∷ subs) = ground (arith, topics_of-without id subs)

topics_of-absent :
    (id : String) (regs : List PushRegistration) (subs : List Subscription)
    → has_registration id regs ≡ false
    → All (λ (s : Subscription). has_registration s.registration_id regs ≡ true) subs
    → topics_of id subs ≡ []
topics_of-absent id regs [] free h = refl
topics_of-absent id regs (s ∷ subs) free h = elim (Bool-cases (str_eq s.registration_id id)) [
  | inl e ↦
      let p = ap (λ i. has_registration i regs) ((eq_iff s.registration_id id).0 e) in
      ground (arith, p, h.0, free)
  | inr e ↦ ground (arith, e, topics_of-absent id regs subs free h.1)
]

abbrev Clears : Option (String × PushDb) → Type 0
Clears none = Unit
Clears (some (id, db)) = topics_of id db.subscriptions ≡ []

place-Clears :
    (o : Option PushRegistration) (token platform app_version language : String) (now : ℕ)
    → (db : PushDb) → IsReferential db
    → Clears (place_device o token platform app_version language now db)
unfolding place_device
place-Clears (some r) token platform app_version language now db ref =
    topics_of-without r.id db.subscriptions
place-Clears none token platform app_version language now db ref =
    let id = "dev_" +++ short_token token in
    elim (Bool-cases (has_registration id db.registrations)) [
      | inl e ↦ rw e tt
      | inr e ↦ rw e (topics_of-absent id db.registrations db.subscriptions e ref)
    ]

subscribe-topics :
    (ts : List String) (o : Option (String × PushDb)) (id : String) (after : PushDb)
    → Clears o
    → subscribe ts o ≡ some (id, after)
    → topics_of id after.subscriptions ≡ ts
subscribe-topics ts none id after c h = ground arith
subscribe-topics ts (some (i, db)) id after c h =
    let same : (i, db.subscriptions ++ map (subscription i) ts) ≡ (id, after.subscriptions) = cc in
    ap (λ (p : String × List Subscription). topics_of p.0 p.1) (sym same)
    ∙ topics_of-own i db.subscriptions ts c

-- Where every subscription belongs to a registration, a registration that succeeds leaves the
-- device with exactly the topics of this request, each once and in their order, whatever it
-- followed before.
pub register_replaces :
    (token platform app_version language : String) (topics : List String) (now : ℕ)
    → (db after : PushDb) (id : String) → IsReferential db
    → register_push_device token platform app_version language topics now db ≡ some (id, after)
    → topics_of id after.subscriptions ≡ dedupe_topics topics
unfolding register_push_device
register_replaces token platform app_version language topics now db after id ref h =
    let known = find (λ (r : PushRegistration). str_eq r.token token) db.registrations in
    subscribe-topics (dedupe_topics topics)
      (place_device known token platform app_version language now db) id after
      (place-Clears known token platform app_version language now db ref) h
