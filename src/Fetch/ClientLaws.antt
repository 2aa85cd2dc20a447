-- ===== src/Fetch/ClientLaws.antt =====
-- What Fetch promises (backend/internal/feed/fetcher/fetcher.go).
use afghanistan_news.Base.{
  ℕ, suc, ◌-◌, ◌≤◌, ◌<◌, ◌≡◌, ◌⊎◌, refl, inl, inr, String, true, false, Option, none, some, List,
  [], ◌∷◌, arith, str_eq, eq_iff, if◌then◌else◌, length,
}
use afghanistan_news.Base.Maps.{get-put}
use afghanistan_news.Fetch.Ssrf.{check_host}
use afghanistan_news.Fetch.Breaker.{Breaker, allow, failure, success}
use afghanistan_news.Fetch.Limiter.{Limiter, normalize_host, begin_acquire, take_slot}
use afghanistan_news.Fetch.LimiterLaws.{held, held-release}
use afghanistan_news.Fetch.Client.{
  HttpResponse, Answer, FetchError, not_modified, blocked, timed_out, transport_failed, http_status,
  Response, Fetched, fetched, fetch_failed, Fetcher, Exchange, Stream, bytes, bad_gzip, broken,
  read_limited, looks_like_html, accept_body, on_answer, under_slot, with_slot, holding, fetch,
  fetch_url, answered, is_fetched, Url, transport_error,
}

-- What the pipeline may rely on in a response.
pub record IsUsable (max : ℕ) (r : Response) : Type 0 where
  pub ok_status : (200 ≤ r.status_code) × (r.status_code < 300)
  pub not_empty : 0 < length r.body
  pub bounded : length r.body ≤ max
  pub not_html : looks_like_html r.body ≡ false

read_limited_bound :
    (max : ℕ) (s : Stream) (got : List ℕ) → read_limited max s ≡ inr got → length got ≤ max
unfolding read_limited
read_limited_bound max (bytes all) got h = ground arith
read_limited_bound max bad_gzip got h = cc
read_limited_bound max broken got h = cc

accept-IsUsable :
    (max : ℕ) (h : HttpResponse) (o : FetchError ⊎ List ℕ) (r : Response)
    → ((got : List ℕ) → o ≡ inr got → length got ≤ max)
    → 200 ≤ h.status
    → h.status < 300
    → accept_body h o ≡ fetched r
    → IsUsable max r
unfolding accept_body
accept-IsUsable max h (inl e) r bound lo hi eq = absurd (cc)
accept-IsUsable max h (inr []) r bound lo hi eq = absurd (cc)
accept-IsUsable max h (inr (b ∷ bs)) r bound lo hi eq =
    let fits = bound (b ∷ bs) refl in ground arith

-- What the breaker holds after an answer that gave this result.
abbrev pub told : Breaker → String → ℕ → Fetched → Breaker
told b host now (fetched r) = success b host
told b host now (fetch_failed not_modified) = success b host
told b host now (fetch_failed timed_out) = failure b host now
told b host now (fetch_failed blocked) = failure b host now
told b host now (fetch_failed (transport_failed m)) = failure b host now
told b host now (fetch_failed (http_status n t)) = failure b host now
told b host now (fetch_failed e) = b

accept_told :
    (max : ℕ) (b : Breaker) (host : String) (now : ℕ) (r : HttpResponse) (s : Stream)
    → (if is_fetched (accept_body r (read_limited max s)) then success b host else b)
      ≡ told b host now (accept_body r (read_limited max s))
unfolding accept_body read_limited
accept_told max b host now r bad_gzip = refl
accept_told max b host now r broken = refl
accept_told max b host now r (bytes all) = ground arith

-- An answer is told to the breaker by its result alone: a response and a 304 close the circuit of
-- the host, a timeout, a transport error, a blocked redirect and an HTTP error status count as
-- failures, and a body that is refused leaves the breaker as it was.
pub on_answer-told :
    (max : ℕ) (b : Breaker) (host : String) (now : ℕ) (a : Answer)
    → (on_answer max b host now a).0 ≡ told b host now (on_answer max b host now a).1
unfolding on_answer
on_answer-told max b host now (transport_error d m) = ground arith
on_answer-told max b host now (answered x) = ground (arith, accept_told max b host now x x.stream)

on_answer-IsUsable :
    (max : ℕ) (b : Breaker) (host : String) (now : ℕ) (a : Answer) (r : Response)
    → (on_answer max b host now a).1 ≡ fetched r
    → IsUsable max r
unfolding on_answer
on_answer-IsUsable max b host now (transport_error d m) r h = ground arith
on_answer-IsUsable max b host now (answered x) r h =
    accept-IsUsable max x (read_limited max x.stream) r (read_limited_bound max x.stream)
      (ground arith) (ground arith) (ground arith)

-- What a request that was sent had passed.
pub record WasGuarded (f : Fetcher) (x : Exchange) (u : Url) : Type 0 where
  pub target : x.url ≡ some u
  pub web : (u.scheme ≡ "http") ⊎ (u.scheme ≡ "https")
  pub vetted : check_host x.net f.allow_private u.host ≡ none
  pub closed : (allow f.breaker u.hostname x.asked_at).1 ≡ true

under_slot-IsUsable :
    (f g : Fetcher) (x : Exchange) (host : String) (r : Response)
    → (under_slot f x host g).1 ≡ fetched r
    → IsUsable f.max_bytes r
unfolding under_slot
under_slot-IsUsable f g x host r h =
    on_answer-IsUsable f.max_bytes g.breaker host x.answered_at x.answer r (ground arith)

holding-IsUsable :
    (o : Option Limiter) (f : Fetcher) (x : Exchange) (host : String) (r : Response)
    → (holding o f x host).1 ≡ fetched r
    → IsUsable f.max_bytes r
unfolding holding
holding-IsUsable none f x host r h = absurd (cc)
holding-IsUsable (some l) f x host r h = under_slot-IsUsable f (record f { limiter = l }) x host r h

with_slot-IsUsable :
    (f : Fetcher) (x : Exchange) (host : String) (r : Response)
    → (with_slot f x host).1 ≡ fetched r
    → IsUsable f.max_bytes r
unfolding with_slot
with_slot-IsUsable f x host r h =
    let looked = (begin_acquire f.limiter (normalize_host host) x.asked_at).0 in
    holding-IsUsable (take_slot looked (normalize_host host) x.entered_at)
      (record f { limiter = looked }) x host r (ground arith)

fetch_url-IsUsable :
    (o : Option Url) (f : Fetcher) (x : Exchange) (r : Response)
    → x.url ≡ o
    → (fetch_url o f x).1 ≡ fetched r
    → IsUsable f.max_bytes r × (u : Url) × WasGuarded f x u
unfolding fetch_url
fetch_url-IsUsable none f x r e h = absurd (cc)
fetch_url-IsUsable (some u) f x r e h = (
  with_slot-IsUsable (record f { breaker = (allow f.breaker u.hostname x.asked_at).0 }) x u.hostname
      r (ground arith),
  u,
  record {
    target = e;
    web = ground (arith, eq_iff u.scheme "http", eq_iff u.scheme "https");
    vetted = ground arith;
    closed = ground arith;
  },
)

-- A response that Fetch returns has a 2xx status and a body that is not empty, not larger than the
-- cap and not an HTML page; its URL is http or https, passed the SSRF guard, and its circuit was not
-- open.
pub fetch-IsUsable :
    (f : Fetcher) (x : Exchange) (r : Response)
    → (fetch f x).1 ≡ fetched r
    → IsUsable f.max_bytes r × (u : Url) × WasGuarded f x u
unfolding fetch
fetch-IsUsable f x r h = fetch_url-IsUsable x.url f x r refl h

module _ (f : Fetcher) (x : Exchange) (host d : String) where
  begin_held :
      held (begin_acquire f.limiter (normalize_host host) x.asked_at).0 d ≡ held f.limiter d
  unfolding begin_acquire
  begin_held = ground (
    arith,
    eq_iff (normalize_host host) d,
    get-put f.limiter.sems (normalize_host host) d (held f.limiter (normalize_host host)),
  )

  held-under_slot :
      (g : Fetcher)
      → held (under_slot f x host g).0.limiter d
        ≡ (if str_eq (normalize_host host) d then held g.limiter d - 1 else held g.limiter d)
  unfolding under_slot
  held-under_slot g = held-release _ g.limiter (normalize_host host) d refl

take_held :
    (l g : Limiter) (domain d : String) (now : ℕ)
    → take_slot l domain now ≡ some g
    → held g d ≡ (if str_eq domain d then suc (held l d) else held l d)
unfolding take_slot
take_held l g domain d now h =
    ground (arith, eq_iff domain d, get-put l.sems domain d (suc (held l domain)))

held-holding :
    (o : Option Limiter) (f : Fetcher) (x : Exchange) (host d : String)
    → take_slot f.limiter (normalize_host host) x.entered_at ≡ o
    → held (holding o f x host).0.limiter d ≡ held f.limiter d
unfolding holding
held-holding none f x host d e = refl
held-holding (some l) f x host d e = ground (
  arith,
  held-under_slot f x host d (record f { limiter = l }),
  take_held f.limiter l (normalize_host host) d x.entered_at e,
)

held-with_slot :
    (f : Fetcher) (x : Exchange) (host d : String)
    → held (with_slot f x host).0.limiter d ≡ held f.limiter d
unfolding with_slot
held-with_slot f x host d =
    let looked = (begin_acquire f.limiter (normalize_host host) x.asked_at).0 in
    ground (
      arith,
      begin_held f x host d,
      held-holding (take_slot looked (normalize_host host) x.entered_at)
          (record f { limiter = looked }) x host d refl,
    )

held-fetch_url :
    (o : Option Url) (f : Fetcher) (x : Exchange) (d : String)
    → held (fetch_url o f x).0.limiter d ≡ held f.limiter d
unfolding fetch_url
held-fetch_url none f x d = refl
held-fetch_url (some u) f x d = ground (
  arith,
  held-with_slot (record f { breaker = (allow f.breaker u.hostname x.asked_at).0 }) x u.hostname d,
)

-- Whatever its outcome, a call of Fetch ends with as many slots taken, in every domain, as before.
pub fetch_returns_slot :
    (f : Fetcher) (x : Exchange) (d : String) → held (fetch f x).0.limiter d ≡ held f.limiter d
unfolding fetch
fetch_returns_slot f x d = held-fetch_url x.url f x d
