-- ===== src/Fetch/BreakerLaws.antt =====
-- The circuit breaker host by host, against a state machine with no maps
-- (backend/internal/feed/fetcher/fetcher.go).
use afghanistan_news.Base.{
  ℕ, suc, ◌+◌, ◌-◌, ◌<◌, ◌≡◌, refl, ap, String, Bool, true, false, not, ◌&&◌, Option, none, some,
  arith, ltb, leb, if◌then◌else◌, str_eq, eq_iff, eq_refl, length, List, [], ◌∷◌,
}
use afghanistan_news.Base.Maps
use afghanistan_news.Base.Maps.{Map, value_or, map_laws, get-put, get-delete}
use afghanistan_news.Fetch.Breaker.{Breaker, allow, allow_at, failure, success}

-- What the breaker knows of one host.
pub record Circuit : Type 0 where
  pub count : ℕ
  pub opened : Option ℕ

abbrev pub circuit : Breaker → String → Circuit
circuit b host = record {
  count = value_or 0 (Maps.get b.failures host);
  opened = Maps.get b.open_at host;
}

pub data Event : Type 0 where
  ask fail succeed : Event

-- The breaker's specification: one host, threshold `t`, cooldown `c`. A request is let through unless
-- the circuit opened less than the cooldown ago, and the first one after that closes it.
abbrev pub asked : ℕ → ℕ → Circuit → Circuit × Bool
asked c now x = elim x.opened [
  | none ↦ (x, true)
  | some since ↦
      if ltb (now - since) c then (x, false) else (record { count = 0; opened = none }, true)
]

-- The circuit afterwards, and whether a request may be made; an outcome is only told.
abbrev pub react : ℕ → ℕ → Event → ℕ → Circuit → Circuit × Bool
react t c ask now x = asked c now x
react t c fail now x = (
  record { count = suc x.count; opened = if leb t (suc x.count) then some now else x.opened },
  true,
)
react t c succeed now x = (record { count = 0; opened = none }, true)

abbrev pub perform : Event → Breaker → String → ℕ → Breaker × Bool
perform ask b host now = allow b host now
perform fail b host now = (failure b host now, true)
perform succeed b host now = (success b host, true)

ask_refines :
    (o : Option ℕ) (b : Breaker) (host other : String) (now : ℕ)
    → Maps.get b.open_at host ≡ o
    → circuit (allow_at o b host now).0 other
      ≡ (if str_eq host other then (asked b.cooldown now (circuit b other)).0 else circuit b other)
unfolding allow_at
ask_refines none b host other now e = ground (arith, eq_iff host other)
ask_refines (some t) b host other now e =
    ground
      (arith, eq_iff host other, get-put b.failures host other 0, get-delete b.open_at host other)

fail_refines :
    (b : Breaker) (host other : String) (now : ℕ)
    → circuit (failure b host now) other ≡ (
        if str_eq host other
        then (react b.threshold b.cooldown fail now (circuit b other)).0
        else circuit b other)
unfolding failure
fail_refines b host other now = ground (
  arith,
  eq_iff host other,
  get-put b.failures host other (suc (value_or 0 (Maps.get b.failures host))),
  get-put b.open_at host other now,
)

ask_answers :
    (o : Option ℕ) (b : Breaker) (host : String) (now : ℕ)
    → Maps.get b.open_at host ≡ o
    → (allow_at o b host now).1 ≡ (asked b.cooldown now (circuit b host)).1
unfolding allow_at
ask_answers none b host now e = ground arith
ask_answers (some t) b host now e = ground arith

-- Each method does to its own host what the state machine does, and nothing to any other host; and
-- `allow` lets a request through exactly if the state machine of its host does.
pub breaker_refines :
    (e : Event) (b : Breaker) (host other : String) (now : ℕ)
    → (circuit (perform e b host now).0 other ≡ (
        if str_eq host other
        then (react b.threshold b.cooldown e now (circuit b other)).0
        else circuit b other))
      × ((perform e b host now).1 ≡ (react b.threshold b.cooldown e now (circuit b host)).1)
breaker_refines ask b host other now =
    unfold allow in (ask_refines _ b host other now refl, ask_answers _ b host now refl)
breaker_refines fail b host other now = (fail_refines b host other now, refl)
breaker_refines succeed b host other now = (unfold success in simp map_laws (ground arith), refl)

-- Failures of one host, at the given times, oldest first.
pub fails : Breaker → String → List ℕ → Breaker
fails b host [] = b
fails b host (t ∷ ts) = fails (failure b host t) host ts

failure_self :
    (b : Breaker) (host : String) (now : ℕ)
    → circuit (failure b host now) host ≡ (react b.threshold b.cooldown fail now (circuit b host)).0
failure_self b host now = rw (fail_refines b host host now, eq_refl host)

failure_settings :
    (b : Breaker) (host : String) (now : ℕ)
    → ((failure b host now).threshold ≡ b.threshold) × ((failure b host now).cooldown ≡ b.cooldown)
unfolding failure
failure_settings b host now = ground arith

-- With fewer failures than the threshold the circuit stays closed, and they are counted.
fails_counted :
    (b : Breaker) (host : String) (ts : List ℕ)
    → (circuit b host).opened ≡ none
    → (circuit b host).count + length ts < b.threshold
    → (circuit (fails b host ts) host
        ≡ record { count = (circuit b host).count + length ts; opened = none })
      × ((fails b host ts).threshold ≡ b.threshold)
      × ((fails b host ts).cooldown ≡ b.cooldown)
unfolding fails
fails_counted b host [] o l = ground arith
fails_counted b host (t ∷ ts) o l = ground (
  arith,
  failure_self b host t,
  failure_settings b host t,
  fails_counted (failure b host t) host ts,
)

fails_total :
    (b : Breaker) (host : String) (ts : List ℕ)
    → ((circuit (fails b host ts) host).count ≡ (circuit b host).count + length ts)
      × ((fails b host ts).threshold ≡ b.threshold)
      × ((fails b host ts).cooldown ≡ b.cooldown)
unfolding fails
fails_total b host [] = ground arith
fails_total b host (t ∷ ts) = ground (
  arith,
  failure_self b host t,
  failure_settings b host t,
  fails_total (failure b host t) host ts,
)

allow_verdict :
    (o : Option ℕ) (b : Breaker) (host : String) (now t : ℕ) (tripped : Bool)
    → o ≡ (if tripped then some t else none)
    → (allow_at o b host now).1 ≡ not (tripped && ltb (now - t) b.cooldown)
unfolding allow_at
allow_verdict none b host now t tripped e = ground arith
allow_verdict (some s) b host now t tripped e = ground arith

opened_after :
    (b : Breaker) (host : String) (ts : List ℕ) (t : ℕ)
    → circuit b host ≡ record { count = 0; opened = none }
    → (circuit (failure (fails b host ts) host t) host).opened
      ≡ (if leb b.threshold (length ts + 1) then some t else none)
opened_after b host ts t fresh = ground (
  arith,
  failure_self (fails b host ts) host t,
  fails_total b host ts,
  fails_counted b host ts,
  ap (λ (c : Circuit). c.count) fresh,
  ap (λ (c : Circuit). c.opened) fresh,
)

-- After failures in a row of a host whose circuit was fresh, the last one at t, a request is refused
-- exactly if they are as many as the threshold and the cooldown since t is not over.
pub opens_exactly :
    (b : Breaker) (host : String) (ts : List ℕ) (t now : ℕ)
    → circuit b host ≡ record { count = 0; opened = none }
    → (allow (failure (fails b host ts) host t) host now).1
      ≡ not (leb b.threshold (length ts + 1) && ltb (now - t) b.cooldown)
unfolding allow
opens_exactly b host ts t now fresh =
    let b' = failure (fails b host ts) host t in
    ground (
      arith,
      allow_verdict (Maps.get b'.open_at host) b' host now t (leb b.threshold (length ts + 1))
          (opened_after b host ts t fresh),
      failure_settings (fails b host ts) host t,
      fails_total b host ts,
    )
