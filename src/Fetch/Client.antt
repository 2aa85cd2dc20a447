-- ===== src/Fetch/Client.antt =====
-- backend/internal/feed/fetcher/fetcher.go: Fetch, from the feed's URL to a response or an error. What
-- url.Parse, the transport and the decompressors answer is in the exchange that a call is given.
use text.Mathlib.Text.{find?}
use afghanistan_news.Base.{
  ◌⊎◌, inl, inr, ℕ, ◌+◌, String, Bool, true, false, not, ◌||◌, Option, none, some, List, [], ◌∷◌,
  map, ltb, leb, ◌==◌, str_eq, if◌then◌else◌, length, take, is_some,
}
use afghanistan_news.Base.Text.{codes, contains, lower_ascii}
use afghanistan_news.Fetch.Ssrf.{Net, check_host}
use afghanistan_news.Fetch.Breaker.{Breaker, allow, failure, success}
use afghanistan_news.Fetch.Limiter.{Limiter, normalize_host, begin_acquire, take_slot, release_slot}

pub record Url : Type 0 where
  pub scheme : String
  pub host : String
  pub hostname : String

-- What decoding and reading the body gives: the error of gzip.NewReader, an error of the copy, or the
-- whole decoded stream.
pub data Stream : Type 0 where
  bad_gzip broken : Stream
  bytes : List ℕ → Stream

-- content_length is none where the header is missing (-1). retry_after is parseRetryAfter of the
-- header.
pub record HttpResponse : Type 0 where
  pub status : ℕ
  pub etag : String
  pub last_modified : String
  pub retry_after : ℕ
  pub content_length : Option ℕ
  pub stream : Stream

-- `deadline` is errors.Is(err, context.DeadlineExceeded).
pub data Answer : Type 0 where
  transport_error : Bool → String → Answer
  answered : HttpResponse → Answer

pub data FetchError : Type 0 where
  not_modified blocked too_large timed_out bad_type circuit_open : FetchError
  cancelled bad_request bad_encoding unreadable empty_body : FetchError
  transport_failed : String → FetchError
  http_status : ℕ → ℕ → FetchError

pub record Response : Type 0 where
  pub status_code : ℕ
  pub body : List ℕ
  pub etag : String
  pub last_modified : String

pub data Fetched : Type 0 where
  fetched : Response → Fetched
  fetch_failed : FetchError → Fetched

pub record Fetcher : Type 0 where
  pub breaker : Breaker
  pub limiter : Limiter
  pub max_bytes : ℕ
  pub allow_private : Bool

-- One call's environment: url.Parse of the feed's URL, whether the context outlives the wait for a
-- slot, whether http.NewRequest accepts the URL, the answer, and the clock at each use.
pub record Exchange : Type 0 where
  pub url : Option Url
  pub net : Net
  pub waited : Bool
  pub request_ok : Bool
  pub answer : Answer
  pub asked_at : ℕ
  pub entered_at : ℕ
  pub answered_at : ℕ

abbrev pub mentions : String → String → Bool
mentions msg word = is_some (find? msg word)

-- io.LimitReader(r, max+1), and the test of what came through.
unfoldable pub read_limited : ℕ → Stream → FetchError ⊎ List ℕ
read_limited max bad_gzip = inl bad_encoding
read_limited max broken = inl unreadable
read_limited max (bytes all) =
    let got = take (max + 1) all in if ltb max (length got) then inl too_large else inr got

unfoldable pub looks_like_html : List ℕ → Bool
looks_like_html body =
    let head = map lower_ascii (take 512 body) in
    contains head (codes "<!doctype html") || contains head (codes "<html")

-- The rest of Fetch behind the size test.
unfoldable pub accept_body : HttpResponse → FetchError ⊎ List ℕ → Fetched
accept_body r (inl e) = fetch_failed e
accept_body r (inr []) = fetch_failed empty_body
accept_body r (inr (b ∷ bs)) =
    if looks_like_html (b ∷ bs)
    then fetch_failed bad_type
    else fetched (record {
      status_code = r.status;
      body = b ∷ bs;
      etag = r.etag;
      last_modified = r.last_modified;
    })

abbrev pub is_fetched : Fetched → Bool
is_fetched (fetched r) = true
is_fetched (fetch_failed e) = false

-- resp.ContentLength > f.opts.MaxBytes
abbrev pub declared_over : ℕ → Option ℕ → Bool
declared_over max none = false
declared_over max (some n) = ltb max n

unfoldable pub on_answer : ℕ → Breaker → String → ℕ → Answer → Breaker × Fetched
on_answer max b host now (transport_error deadline msg) = (
  failure b host now,
  fetch_failed (
      if deadline || mentions msg "timeout"
      then timed_out
      else if mentions msg "ssrf:"
      then blocked
      else transport_failed msg),
)
on_answer max b host now (answered r) =
    if r.status == 304
    then (success b host, fetch_failed not_modified)
    else if r.status == 429
    then (failure b host now, fetch_failed (http_status 429 r.retry_after))
    else if ltb r.status 200 || leb 300 r.status
    then (failure b host now, fetch_failed (http_status r.status 0))
    else if declared_over max r.content_length
    then (b, fetch_failed too_large)
    else (
      if is_fetched (accept_body r (read_limited max r.stream)) then success b host else b,
      accept_body r (read_limited max r.stream),
    )

-- From the slot to its release, which is deferred.
unfoldable pub under_slot : Fetcher → Exchange → String → Fetcher → Fetcher × Fetched
under_slot f x host g =
    let (b, result) =
      if not x.request_ok
      then (g.breaker, fetch_failed bad_request)
      else on_answer f.max_bytes g.breaker host x.answered_at x.answer in
    (record g { breaker = b; limiter = release_slot g.limiter (normalize_host host) }, result)

-- With the slot that Acquire took; `none` is a wait that the context ended.
unfoldable pub holding : Option Limiter → Fetcher → Exchange → String → Fetcher × Fetched
holding none f x host = (f, fetch_failed cancelled)
holding (some l) f x host = under_slot f x host (record f { limiter = l })

unfoldable pub with_slot : Fetcher → Exchange → String → Fetcher × Fetched
with_slot f x host =
    let looked = (begin_acquire f.limiter (normalize_host host) x.asked_at).0 in
    let waiting = record f { limiter = looked } in
    if x.waited
    then holding (take_slot looked (normalize_host host) x.entered_at) waiting x host
    else (waiting, fetch_failed cancelled)

-- Fetch behind url.Parse.
unfoldable pub fetch_url : Option Url → Fetcher → Exchange → Fetcher × Fetched
fetch_url none f x = (f, fetch_failed blocked)
fetch_url (some u) f x =
    if not (str_eq u.scheme "http" || str_eq u.scheme "https")
    then (f, fetch_failed blocked)
    else if is_some (check_host x.net f.allow_private u.host)
    then (f, fetch_failed blocked)
    else let (b, allowed) = allow f.breaker u.hostname x.asked_at in
      let g = record f { breaker = b } in
      if not allowed then (g, fetch_failed circuit_open) else with_slot g x u.hostname

unfoldable pub fetch : Fetcher → Exchange → Fetcher × Fetched
unfolding fetch_url
fetch f x = fetch_url x.url f x
