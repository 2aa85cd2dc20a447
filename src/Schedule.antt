-- ===== src/Schedule.antt =====
-- backend/internal/store/feeds.go: HealthScore and NextPollDelay.
pub mod Bounds
use afghanistan_news.Base.{
  ℕ, ◌+◌, ◌-◌, ◌*◌, ◌/◌, ◌%◌, ◌^◌, min, Bool, ◌&&◌, ltb, leb, ◌==◌, if◌then◌else◌,
}
use afghanistan_news.Model.{PollTier, interval, minute, hour}

-- Go computes in int and sets a negative score to 0 at the end; subtraction that stops at 0 gives
-- the same number, since nothing is added.
unfoldable pub health_score : ℕ → Bool → Bool → ℕ
health_score consecutive_failures parse_ok stale =
    let parsed = if parse_ok then 100 else 100 - 35 in
    let failed = parsed - consecutive_failures * 12 in if stale then failed - 20 else failed

abbrev pub min_poll_delay : ℕ
min_poll_delay = 2 * minute

abbrev pub max_poll_delay : ℕ
max_poll_delay = 6 * hour

-- The adaptive part of NextPollDelay.
unfoldable pub adapted_interval : PollTier → ℕ → ℕ → Bool → ℕ
adapted_interval tier failures recent_items adaptive =
    let target = interval tier in
    let idle = if recent_items == 0 && failures == 0 then target * 2 else target in
    let halved = idle / 2 in
    let busy =
      if leb 10 recent_items
      then (if ltb halved (2 * minute) then 2 * minute else halved)
      else idle in
    if adaptive then busy else target

-- The interval before the jitter.
unfoldable pub base_delay : PollTier → ℕ → ℕ → Bool → ℕ
base_delay tier failures recent_items adaptive =
    let adapted = adapted_interval tier failures recent_items adaptive in
    if ltb 0 failures then adapted * 2 ^ min failures 6 else adapted

-- 0.8 + 0.4 * m / 1000 of the base for m = UnixNano % 1000, as an exact fraction.
unfoldable pub jittered : ℕ → ℕ → ℕ
jittered base unix_nano = base * (8000 + 4 * (unix_nano % 1000)) / 10000

unfoldable pub next_poll_delay : PollTier → ℕ → ℕ → Bool → ℕ → ℕ
next_poll_delay tier failures recent_items adaptive unix_nano =
    let delay = jittered (base_delay tier failures recent_items adaptive) unix_nano in
    if ltb max_poll_delay delay
    then max_poll_delay
    else if ltb delay min_poll_delay
    then min_poll_delay
    else delay
