-- ===== src/Feeds/LeaseLaws.antt =====
-- Leases (backend/internal/store/feeds.go): who is claimed, and that two workers never share a feed.
use mathlib.Core.Path.{subst}
use afghanistan_news.Base.{
  ℕ, ◌+◌, ◌≤◌, ◌≡◌, refl, ap, inl, inr, String, true, false, some, List, [], ◌∷◌, arith, str_eq,
  eq_iff, any, All, select, update_where, Bool-cases, length, length-take,
}
use afghanistan_news.Base.Sorting.{order_by, All-order_by, All-take, All-select}
use afghanistan_news.Model.{Feed}
use afghanistan_news.Feeds.Writes.{FeedDb}
use afghanistan_news.Feeds.Lease.{
  claims_before, Dialect, is_claimable, due_feeds, has_id, leased, claim_due_feeds, claims_before,
}

-- A row that the statement returns carries the worker's lease.
abbrev pub IsLeasedTo : String → ℕ → Feed → Type 0
IsLeasedTo owner until f = (f.lease_owner ≡ some owner) × (f.lease_until ≡ some until)

-- As long as its lease runs, no row is claimable, for any worker and dialect.
leased_not_claimable :
    (d : Dialect) (f : Feed) (until now : ℕ)
    → f.lease_until ≡ some until
    → now ≤ until
    → is_claimable d now f ≡ false
unfolding is_claimable
leased_not_claimable d f until now h le = ground arith

-- Every row with a chosen id is updated, and carries the lease.
returned_leased :
    (owner : String) (now lease : ℕ) (chosen feeds : List Feed)
    → All
        (IsLeasedTo owner (now + lease))
        (select (has_id chosen) (update_where (has_id chosen) (leased owner now lease) feeds))
unfolding leased
returned_leased owner now lease chosen [] = tt
returned_leased owner now lease chosen (f ∷ fs) = elim (Bool-cases (has_id chosen f)) [
  | inl e ↦ rw (e, e) ((refl, refl), returned_leased owner now lease chosen fs)
  | inr e ↦ rw (e, e) (returned_leased owner now lease chosen fs)
]

-- Of the updated table, a worker at a time within the lease can claim no row with a chosen id.
claimable_not_chosen :
    (d : Dialect) (owner : String) (now lease now' : ℕ) (chosen feeds : List Feed)
    → now' ≤ now + lease
    → All
        (λ (f : Feed). has_id chosen f ≡ false)
        (select (is_claimable d now') (update_where (has_id chosen) (leased owner now lease) feeds))
claimable_not_chosen d owner now lease now' chosen [] h = tt
claimable_not_chosen d owner now lease now' chosen (f ∷ fs) h =
    let rest = claimable_not_chosen d owner now lease now' chosen fs h in
    elim (Bool-cases (has_id chosen f)) [
      | inl e ↦
          let shut : is_claimable d now' (leased owner now lease f) ≡ false =
            leased_not_claimable d (leased owner now lease f) (now + lease) now'
              (unfold leased in refl) h in
          rw (e, shut) rest
      | inr e ↦
          rw e (elim (Bool-cases (is_claimable d now' f)) [
            | inl y ↦ rw y (e, rest)
            | inr n ↦ rw n rest
          ])
    ]

All-due :
    (P : Feed → Type 0) (d : Dialect) (now limit : ℕ) (feeds : List Feed)
    → All P (select (is_claimable d now) feeds)
    → All P (due_feeds d now limit feeds)
unfolding due_feeds
All-due P d now limit feeds h = All-take P limit _ (All-order_by P claims_before _ h)

-- A property of ids passes from the chosen rows to any row with a chosen id.
of_has_id :
    (Q : String → Type 0) (chosen : List Feed) (f : Feed)
    → All (λ (c : Feed). Q c.id) chosen
    → has_id chosen f ≡ true
    → Q f.id
of_has_id Q [] f all h = absurd (cc)
of_has_id Q (c ∷ cs) f all h = elim (Bool-cases (str_eq c.id f.id)) [
  | inl e ↦ subst Q ((eq_iff c.id f.id).0 e) all.0
  | inr e ↦ of_has_id Q cs f all.1 (rw e at h)
]

not_returned :
    (chosen xs : List Feed) (f : Feed)
    → has_id chosen f ≡ false
    → has_id (select (has_id chosen) xs) f ≡ false
not_returned chosen [] f h = refl
not_returned chosen (x ∷ xs) f h =
    let rest = not_returned chosen xs f h in
    elim (Bool-cases (has_id chosen x)) [
      | inl e ↦ elim (Bool-cases (str_eq x.id f.id)) [
        | inl q ↦ cc (ap (λ i. any (λ (c : Feed). str_eq c.id i) chosen) ((eq_iff x.id f.id).0 q))
        | inr q ↦ rw (e, q) rest
      ]
      | inr e ↦ rw e rest
    ]

-- What a statement returns is claimed by nobody else while the lease runs: a second claim, by any
-- worker, no later than the end of the first one's lease, returns no feed that the first returned.
pub no_shared_lease :
    (d : Dialect) (a b : String) (limit limit' lease lease' now now' : ℕ) (db : FeedDb)
    → now' ≤ now + lease
    → let (db', first) = claim_due_feeds d a limit lease now db in
      let (db'', next) = claim_due_feeds d b limit' lease' now' db' in
      All (λ (f : Feed). has_id first f ≡ false) next
unfolding claim_due_feeds
no_shared_lease d a b limit limit' lease lease' now now' db h =
    let chosen = due_feeds d now limit db.feeds in
    let feeds = update_where (has_id chosen) (leased a now lease) db.feeds in
    let chosen' = due_feeds d now' limit' feeds in
    let apart =
      All-due (λ (f : Feed). has_id chosen f ≡ false) d now' limit' feeds
        (claimable_not_chosen d a now lease now' chosen db.feeds h) in
    All-select _ (has_id chosen') _ (λ f e.
      not_returned chosen feeds f
        (of_has_id (λ i. any (λ (c : Feed). str_eq c.id i) chosen ≡ false) chosen' f apart e))

-- Each row that a claim returns carries the lease of the worker for the time asked; what was chosen
-- was claimable (on PostgreSQL not flagged for review), and is not more than the limit.
pub claim_grants :
    (d : Dialect) (owner : String) (limit lease now : ℕ) (db : FeedDb)
    → All (IsLeasedTo owner (now + lease)) (claim_due_feeds d owner limit lease now db).1
      × All (λ (f : Feed). is_claimable d now f ≡ true) (due_feeds d now limit db.feeds)
      × (length (due_feeds d now limit db.feeds) ≤ limit)
unfolding claim_due_feeds
claim_grants d owner limit lease now db = (
  returned_leased owner now lease (due_feeds d now limit db.feeds) db.feeds,
  All-due _ d now limit db.feeds (All-select _ (is_claimable d now) db.feeds (λ f e. e)),
  unfold due_feeds in
      omega
        (arith, length-take limit (order_by claims_before (select (is_claimable d now) db.feeds))),
)
