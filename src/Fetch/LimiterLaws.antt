-- ===== src/Fetch/LimiterLaws.antt =====
-- Requests in flight under the domain limiter, in any interleaving of the worker's goroutines
-- (backend/internal/feed/fetcher/fetcher.go).
use afghanistan_news.Base.{
  ℕ, suc, ◌+◌, ◌-◌, ◌≤◌, ◌≡◌, refl, ap, ◌∙◌, inl, inr, Bool-cases, eq_refl, String, Bool, Option,
  none, some, List, [], ◌∷◌, ◌++◌, arith, str_eq, eq_iff, count_where, count_where-append,
  if◌then◌else◌, select, ltb,
}
use afghanistan_news.Base.Maps
use afghanistan_news.Base.Maps.{Map, value_or, get-put}
use afghanistan_news.Model.{minute}
use afghanistan_news.Fetch.Limiter.{
  Limiter, new_domain_limiter, begin_acquire, take_slot, release_slot, recent,
}

-- The limiter, and the domains of the requests that hold a slot.
pub record Traffic : Type 0 where
  pub limiter : Limiter
  pub flying : List String

-- A goroutine looks at the window, takes a slot, or gives its slot back.
pub data Step : Traffic → Traffic → Type 0 where
  look :
      (s : Traffic) (domain : String) (now : ℕ)
      → Step s (record s { limiter = (begin_acquire s.limiter domain now).0 })
  enter :
      (s : Traffic) (domain : String) (now : ℕ) (l : Limiter)
      → take_slot s.limiter domain now ≡ some l
      → Step s (record { limiter = l; flying = domain ∷ s.flying })
  leave :
      (s : Traffic) (domain : String) (before after : List String)
      → s.flying ≡ before ++ (domain ∷ after)
      → Step s (record { limiter = release_slot s.limiter domain; flying = before ++ after })

pub data Reach (s : Traffic) : Traffic → Type 0 where
  here : Reach s s
  next : {t u : Traffic} → Reach s t → Step t u → Reach s u

abbrev pub flights : String → List String → ℕ
flights d = count_where (str_eq d)

abbrev pub held : Limiter → String → ℕ
held l d = value_or 0 (Maps.get l.sems d)

-- The channel of each domain holds one value for each of its requests in flight, within its capacity.
pub record IsCounted (most : ℕ) (s : Traffic) : Type 0 where
  pub capacity : s.limiter.max_con ≡ most
  pub counted : (d : String) → flights d s.flying ≡ held s.limiter d
  pub bounded : (d : String) → held s.limiter d ≤ most

look-IsCounted :
    (most : ℕ) (s : Traffic) (domain : String) (now : ℕ)
    → IsCounted most s
    → IsCounted most (record s { limiter = (begin_acquire s.limiter domain now).0 })
unfolding begin_acquire
look-IsCounted most s domain now h = record {
  capacity = h.capacity;
  counted = λ d. ground (
    arith,
    get-put s.limiter.sems domain d (held s.limiter domain),
    eq_iff domain d,
    h.counted d,
  );
  bounded = λ d. ground (
    arith,
    get-put s.limiter.sems domain d (held s.limiter domain),
    eq_iff domain d,
    h.bounded d,
  );
}

enter-IsCounted :
    (most : ℕ) (s : Traffic) (domain : String) (now : ℕ) (l : Limiter)
    → take_slot s.limiter domain now ≡ some l
    → IsCounted most s
    → IsCounted most (record { limiter = l; flying = domain ∷ s.flying })
unfolding take_slot
enter-IsCounted most s domain now l e h = record {
  capacity = ground (arith, h.capacity);
  counted = λ d. ground (
    arith,
    get-put s.limiter.sems domain d (suc (held s.limiter domain)),
    eq_iff domain d,
    eq_iff d domain,
    h.counted d,
  );
  bounded = λ d. ground (
    arith,
    h.capacity,
    get-put s.limiter.sems domain d (suc (held s.limiter domain)),
    eq_iff domain d,
    h.bounded d,
  );
}

pub held-release :
    (o : Option ℕ) (l : Limiter) (domain d : String)
    → Maps.get l.sems domain ≡ o
    → held (release_slot l domain) d ≡ (if str_eq domain d then held l d - 1 else held l d)
unfolding release_slot
held-release none l domain d e = ground (arith, eq_iff domain d)
held-release (some n) l domain d e =
    ground (arith, eq_iff domain d, get-put l.sems domain d (n - 1))

max_con-release : (l : Limiter) (domain : String) → (release_slot l domain).max_con ≡ l.max_con
unfolding release_slot
max_con-release l domain = ground arith

flights-leave :
    (d domain : String) (before after : List String)
    → flights d (before ++ (domain ∷ after))
      ≡ flights d (before ++ after) + (if str_eq d domain then 1 else 0)
flights-leave d domain before after = ground (
  arith,
  count_where-append (str_eq d) before (domain ∷ after),
  count_where-append (str_eq d) before after,
)

leave-IsCounted :
    (most : ℕ) (s : Traffic) (domain : String) (before after : List String)
    → s.flying ≡ before ++ (domain ∷ after)
    → IsCounted most s
    → IsCounted most (record { limiter = release_slot s.limiter domain; flying = before ++ after })
leave-IsCounted most s domain before after e h = record {
  capacity = max_con-release s.limiter domain ∙ h.capacity;
  counted = λ d. ground (
    arith,
    eq_iff domain d,
    eq_iff d domain,
    held-release _ s.limiter domain d refl,
    flights-leave d domain before after,
    ap (flights d) e,
    h.counted d,
  );
  bounded = λ d. ground (arith, held-release _ s.limiter domain d refl, h.bounded d);
}

Step-IsCounted : (most : ℕ) {s t : Traffic} → Step s t → IsCounted most s → IsCounted most t
Step-IsCounted most (look s domain now) h = look-IsCounted most s domain now h
Step-IsCounted most (enter s domain now l e) h = enter-IsCounted most s domain now l e h
Step-IsCounted most (leave s domain before after e) h =
    leave-IsCounted most s domain before after e h

Reach-IsCounted : (most : ℕ) {s t : Traffic} → IsCounted most s → Reach s t → IsCounted most t
Reach-IsCounted most h here = h
Reach-IsCounted most h (next r st) = Step-IsCounted most st (Reach-IsCounted most h r)

abbrev pub idle : ℕ → ℕ → Traffic
idle most per_minute = record { limiter = new_domain_limiter most per_minute; flying = [] }

idle-IsCounted : (most per_minute : ℕ) → IsCounted most (idle most per_minute)
unfolding new_domain_limiter Maps.get
idle-IsCounted most per_minute = record {
  capacity = refl;
  counted = λ d. refl;
  bounded = λ d. omega arith;
}

-- However the goroutines interleave, no domain has more requests in flight than the configured
-- number.
pub in_flight_bounded :
    (most per_minute : ℕ) (s : Traffic) (domain : String)
    → Reach (idle most per_minute) s
    → flights domain s.flying ≤ most
in_flight_bounded most per_minute s domain r =
    let h = Reach-IsCounted most (idle-IsCounted most per_minute) r in
    ground (arith, h.counted domain, h.bounded domain)

select_idem : (p : ℕ → Bool) (ts : List ℕ) → select p (select p ts) ≡ select p ts
select_idem p [] = refl
select_idem p (t ∷ ts) = elim (Bool-cases (p t)) [
  | inl e ↦ rw (e, e) (ap (λ r. t ∷ r) (select_idem p ts))
  | inr e ↦ rw e (select_idem p ts)
]

-- The look at the rate window reserves nothing: a second caller at the same time is told to wait as
-- long as the first.
pub wait_unreserved :
    (l : Limiter) (domain : String) (now : ℕ)
    → (begin_acquire (begin_acquire l domain now).0 domain now).1 ≡ (begin_acquire l domain now).1
unfolding begin_acquire
wait_unreserved l domain now = ground (
  arith,
  get-put l.window domain domain (recent now (value_or [] (Maps.get l.window domain))),
  eq_refl domain,
  select_idem (λ t. ltb (now - t) minute) (value_or [] (Maps.get l.window domain)),
)
