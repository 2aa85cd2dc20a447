-- ===== src/Api/RateLimit.antt =====
-- backend/internal/httpapi/middleware.go: rateLimiter. Tokens are counted in units of which one request
-- takes 60,000,000,000 (the nanoseconds of a minute): a rate of n a minute then adds n in a nanosecond,
-- and every sum of the code is a whole number. The code's float64 sums are taken to be exact.
use afghanistan_news.Base.{
  ℕ, ◌+◌, ◌-◌, ◌*◌, min, String, Bool, true, false, Option, none, some, List, [], ◌∷◌, str_eq, ltb,
  ◌==◌, if◌then◌else◌,
}
use afghanistan_news.Model.{minute}

pub record Bucket : Type 0 where
  pub tokens : ℕ
  pub updated : ℕ

pub record RateLimiter : Type 0 where
  pub buckets : String → Option Bucket
  pub per_minute : ℕ
  pub last_gc : ℕ

-- One request's tokens, and the burst of a quarter of a minute.
abbrev pub one_token : ℕ
one_token = minute

abbrev pub burst : ℕ → ℕ
burst per_minute = per_minute * 15_000_000_000

unfoldable pub new_rate_limiter : ℕ → ℕ → RateLimiter
new_rate_limiter per_minute now = record {
  buckets = λ _. none;
  per_minute = if per_minute == 0 then 240 else per_minute;
  last_gc = now;
}

-- A bucket that has not been used for ten minutes is removed.
unfoldable pub expire : ℕ → Option Bucket → Option Bucket
expire now none = none
expire now (some b) = if ltb (10 * minute) (now - b.updated) then none else some b

-- The buckets as the sweep leaves them, which runs every ten minutes at most.
unfoldable pub swept : RateLimiter → ℕ → String → Option Bucket
swept l now k =
    if ltb (10 * minute) (now - l.last_gc) then expire now (l.buckets k) else l.buckets k

unfoldable pub last_swept : RateLimiter → ℕ → ℕ
last_swept l now = if ltb (10 * minute) (now - l.last_gc) then now else l.last_gc

-- b.tokens after the elapsed time is added; a new bucket has a burst.
unfoldable pub refilled : ℕ → ℕ → Option Bucket → ℕ
refilled per_minute now none = burst per_minute
refilled per_minute now (some b) =
    min (burst per_minute) (b.tokens + (now - b.updated) * per_minute)

unfoldable pub take_token : ℕ → ℕ → Option Bucket → Bucket × Bool
take_token per_minute now b =
    let tokens = refilled per_minute now b in
    if ltb tokens one_token
    then (record { tokens = tokens; updated = now }, false)
    else (record { tokens = tokens - one_token; updated = now }, true)

-- allow
unfoldable pub allow_request : RateLimiter → ℕ → String → RateLimiter × Bool
allow_request l now key =
    let taken = take_token l.per_minute now (swept l now key) in
    (
      record l {
        buckets = λ k. if str_eq k key then some taken.0 else swept l now k;
        last_gc = last_swept l now;
      },
      taken.1,
    )

-- Requests with their times and the answers that they get, in the order of the mutex.
unfoldable pub allow_all : RateLimiter → List (ℕ × String) → RateLimiter × List Bool
allow_all l [] = (l, [])
allow_all l ((now, key) ∷ requests) =
    let step = allow_request l now key in
    let rest = allow_all step.0 requests in (rest.0, step.1 ∷ rest.1)
