-- ===== src/Api/RateLimitLaws.antt =====
-- backend/internal/httpapi/middleware.go: how many requests of one client pass.
use afghanistan_news.Base.{
  ℕ, ◌+◌, ◌-◌, ◌*◌, ◌≤◌, ◌<◌, String, Bool, true, false, ◌&&◌, Option, none, some, List, [], ◌∷◌,
  ◌≡◌, refl, inl, inr, str_eq, eq_iff, eq_refl, ltb, Bool-cases, arith, if◌then◌else◌,
}
use native.Mathlib.Nat.{add-mul, mul-le-mul_right}
use afghanistan_news.Model.{minute}
use afghanistan_news.Api.RateLimit.{
  Bucket, RateLimiter, one_token, burst, expire, swept, refilled, take_token, allow_request,
  allow_all,
}

-- A bucket is from this time or before.
abbrev pub NotAhead : ℕ → Option Bucket → Type 0
NotAhead now none = Unit
NotAhead now (some b) = b.updated ≤ now

idle : (now u : ℕ) → ltb (10 * minute) (now - u) ≡ true → 600_000_000_000 ≤ now - u
idle now u e = ground arith

elapsed_split :
    (n u now later : ℕ)
    → u ≤ now
    → now ≤ later
    → (later - u) * n ≡ (now - u) * n + (later - now) * n
elapsed_split n u now later h le =
    let whole : later - u ≡ (now - u) + (later - now) = omega arith in
    rw whole (add-mul (now - u) (later - now) n)

-- Removing an idle bucket gives nothing away: it had filled up.
refilled-expire : (n now : ℕ) (b : Option Bucket) → refilled n now (expire now b) ≡ refilled n now b
unfolding refilled expire
refilled-expire n now none = refl
refilled-expire n now (some b) = elim (Bool-cases (ltb (10 * minute) (now - b.updated))) [
  | inl e ↦ let full = mul-le-mul_right n (idle now b.updated e) in rw e (omega arith)
  | inr e ↦ rw e refl
]

expire-NotAhead : (now : ℕ) (b : Option Bucket) → NotAhead now b → NotAhead now (expire now b)
unfolding expire
expire-NotAhead now none h = tt
expire-NotAhead now (some b) h = elim (Bool-cases (ltb (10 * minute) (now - b.updated))) [
  | inl e ↦ rw e tt
  | inr e ↦ rw e h
]

refilled-swept :
    (l : RateLimiter) (now : ℕ) (k : String)
    → refilled l.per_minute now (swept l now k) ≡ refilled l.per_minute now (l.buckets k)
unfolding swept
refilled-swept l now k = ground (arith, refilled-expire l.per_minute now (l.buckets k))

swept-NotAhead :
    (l : RateLimiter) (now : ℕ) (k : String)
    → NotAhead now (l.buckets k)
    → NotAhead now (swept l now k)
unfolding swept
swept-NotAhead l now k h = elim (Bool-cases (ltb (10 * minute) (now - l.last_gc))) [
  | inl e ↦ rw e (expire-NotAhead now (l.buckets k) h)
  | inr e ↦ rw e h
]

-- What a client has grows by the rate at most.
refilled_grows :
    (n now later : ℕ) (b : Option Bucket)
    → NotAhead now b
    → now ≤ later
    → refilled n later b ≤ refilled n now b + (later - now) * n
unfolding refilled
refilled_grows n now later none h le = omega arith
refilled_grows n now later (some b) h le = omega (arith, elapsed_split n b.updated now later h le)

cost : Bool → ℕ
cost true = one_token
cost false = 0

-- A request that passes is paid for.
take_token-refilled :
    (n now : ℕ) (b : Option Bucket)
    → refilled n now (some (take_token n now b).0) + cost (take_token n now b).1 ≡ refilled n now b
unfolding take_token refilled cost
take_token-refilled n now none = ground arith
take_token-refilled n now (some b) = ground arith

-- Times that never go back, from a first one on.
abbrev pub Clock : ℕ → List (ℕ × String) → Type 0
Clock now [] = Unit
Clock now (r ∷ rest) = now ≤ r.0 × Clock r.0 rest

-- The time of the last request.
abbrev pub last_time : ℕ → List (ℕ × String) → ℕ
last_time now [] = now
last_time now (r ∷ rest) = last_time r.0 rest

-- The requests of one client that pass.
abbrev pub passed : String → List (ℕ × String) → List Bool → ℕ
passed k [] answers = 0
passed k (r ∷ rest) [] = 0
passed k (r ∷ rest) (a ∷ answers) = (if str_eq r.1 k && a then 1 else 0) + passed k rest answers

differs : (k key : String) → str_eq k key ≡ false → str_eq key k ≡ false
differs k key e = ground (arith, eq_iff k key, eq_iff key k)

NotAhead-later :
    (start now : ℕ) (b : Option Bucket) → start ≤ now → NotAhead start b → NotAhead now b
NotAhead-later start now none le h = tt
NotAhead-later start now (some b) le h = omega arith

taken_now : (n now : ℕ) (b : Option Bucket) → NotAhead now (some (take_token n now b).0)
unfolding take_token
taken_now n now b = ground arith

-- One request: what the client is left with and what it spends is what it had, grown by the rate.
step_spends :
    (l : RateLimiter) (k key : String) (start now : ℕ)
    → NotAhead start (l.buckets k)
    → start ≤ now
    → refilled l.per_minute now ((allow_request l now key).0.buckets k)
        + cost (str_eq key k && (allow_request l now key).1)
      ≤ refilled l.per_minute start (l.buckets k) + (now - start) * l.per_minute
unfolding allow_request cost
step_spends l k key start now h le =
    let grows = refilled_grows l.per_minute start now (l.buckets k) h le in
    let sweep = refilled-swept l now k in
    elim (Bool-cases (str_eq k key)) [
      | inl e ↦
          let same : k ≡ key = (eq_iff k key).0 e in
          let paid = take_token-refilled l.per_minute now (swept l now k) in
          rw⁻¹ same (rw (eq_refl k) (omega arith))
      | inr e ↦
          let other : str_eq key k ≡ false = differs k key e in rw (e, other, cost) (omega arith)
    ]

step-NotAhead :
    (l : RateLimiter) (k key : String) (start now : ℕ)
    → NotAhead start (l.buckets k)
    → start ≤ now
    → NotAhead now ((allow_request l now key).0.buckets k)
unfolding allow_request
step-NotAhead l k key start now h le = elim (Bool-cases (str_eq k key)) [
  | inl e ↦ rw e (taken_now l.per_minute now (swept l now key))
  | inr e ↦ rw e (swept-NotAhead l now k (NotAhead-later start now (l.buckets k) le h))
]

passed-cost :
    (k : String) (now : ℕ) (key : String) (rest : List (ℕ × String)) (a : Bool)
    (answers : List Bool)
    → one_token * passed k ((now, key) ∷ rest) (a ∷ answers)
      ≡ cost (str_eq key k && a) + one_token * passed k rest answers
unfolding cost
passed-cost k now key rest a answers = ground arith

per_minute_kept :
    (l : RateLimiter) (now : ℕ) (key : String)
    → (allow_request l now key).0.per_minute ≡ l.per_minute
unfolding allow_request
per_minute_kept l now key = refl

last_time_le :
    (now : ℕ) (requests : List (ℕ × String)) → Clock now requests → now ≤ last_time now requests
last_time_le now [] h = omega arith
last_time_le now (r ∷ rest) h = omega (arith, h.0, last_time_le r.0 rest h.1)

-- Over any requests, those of a client that pass take no more than what it has at the start and what
-- the rate adds.
passed_paid :
    (k : String) (l : RateLimiter) (start : ℕ) (requests : List (ℕ × String))
    → NotAhead start (l.buckets k)
    → Clock start requests
    → one_token * passed k requests (allow_all l requests).1
      ≤ refilled l.per_minute start (l.buckets k)
        + (last_time start requests - start) * l.per_minute
unfolding allow_all
passed_paid k l start [] h clock = omega arith
passed_paid k l start ((now, key) ∷ rest) h clock =
    let l' = (allow_request l now key).0 in
    let ih = passed_paid k l' now rest (step-NotAhead l k key start now h clock.0) clock.1 in
    let split =
      elapsed_split l.per_minute start now (last_time now rest) clock.0
        (last_time_le now rest clock.1) in
    let ih' = rw (per_minute_kept l now key) at ih in
    omega (
      arith,
      ih',
      split,
      step_spends l k key start now h clock.0,
      passed-cost k now key rest (allow_request l now key).1 (allow_all l' rest).1,
    )

refilled_bounds : (n now : ℕ) (b : Option Bucket) → refilled n now b ≤ burst n
unfolding refilled
refilled_bounds n now none = omega arith
refilled_bounds n now (some b) = omega arith

-- However the requests of all clients interleave and wherever the sweeps fall, the requests of
-- one client that pass number at most a quarter of a minute's rate and what the rate allows in
-- the time from the start to the last of them, where one request counts for a minute's
-- nanoseconds. The clock does not go back, and the client's bucket at the start is not from a
-- later time.
pub rate_limited :
    (k : String) (l : RateLimiter) (start : ℕ) (requests : List (ℕ × String))
    → NotAhead start (l.buckets k)
    → Clock start requests
    → minute * passed k requests (allow_all l requests).1
      ≤ burst l.per_minute + (last_time start requests - start) * l.per_minute
rate_limited k l start requests h clock = omega (
  arith,
  passed_paid k l start requests h clock,
  refilled_bounds l.per_minute start (l.buckets k),
)

-- A limiter for fewer than four requests a minute never lets one pass: its burst is less than one
-- request, and the tokens never exceed the burst.
pub low_rate_denies :
    (k : String) (l : RateLimiter) (now : ℕ) → l.per_minute < 4 → (allow_request l now k).1 ≡ false
unfolding allow_request take_token
low_rate_denies k l now low = ground (arith, refilled_bounds l.per_minute now (swept l now k))

full_bucket :
    (n now : ℕ) (b : Option Bucket)
    → 4 ≤ n
    → ((c : Bucket) → b ≡ some c → 15_000_000_000 ≤ now - c.updated)
    → one_token ≤ refilled n now b
unfolding refilled
full_bucket n now none rate idle_for = omega arith
full_bucket n now (some b) rate idle_for = omega (arith, mul-le-mul_right n (idle_for b refl))

-- A client that waits gets through: with at least four requests a minute, after fifteen seconds in
-- which its bucket was not used, or with no bucket, its request passes.
pub patient_passes :
    (k : String) (l : RateLimiter) (now : ℕ)
    → 4 ≤ l.per_minute
    → ((b : Bucket) → l.buckets k ≡ some b → 15_000_000_000 ≤ now - b.updated)
    → (allow_request l now k).1 ≡ true
unfolding allow_request take_token
patient_passes k l now rate idle_for =
    ground (arith, refilled-swept l now k, full_bucket l.per_minute now (l.buckets k) rate idle_for)
