-- ===== src/Schedule/Bounds.antt =====
-- Bounds of the scheduler's arithmetic (backend/internal/store/feeds.go).
use native.Mathlib.Nat.{pow-le-pow_right}
use afghanistan_news.Base.{ℕ, zero, suc, ◌+◌, ◌*◌, ◌≤◌, ◌≡◌, Bool, true, false, arith, min, ◌^◌}
use afghanistan_news.Model.{PollTier, minute, hour}
use afghanistan_news.Schedule.{health_score, base_delay, adapted_interval, next_poll_delay}

-- A health score lies in 0..100; one more failure, a parse error or staleness never raises it; and
-- nine failures in a row leave nothing.
pub health_score_bounds :
    (failures : ℕ) (parsed old : Bool)
    → (health_score failures parsed old ≤ 100)
      × (health_score (failures + 1) parsed old ≤ health_score failures parsed old)
      × (health_score failures false old ≤ health_score failures true old)
      × (health_score failures parsed true ≤ health_score failures parsed false)
      × (9 ≤ failures → health_score failures parsed old ≡ 0)
unfolding health_score
health_score_bounds failures parsed old = ground arith

-- Whatever the tier, the failures, the items and the jitter draw, a poll is scheduled no sooner than
-- two minutes and no later than six hours ahead.
pub next_poll_delay_bounds :
    (tier : PollTier) (failures items : ℕ) (adaptive : Bool) (draw : ℕ)
    → let delay = next_poll_delay tier failures items adaptive draw in
      (2 * minute ≤ delay) × (delay ≤ 6 * hour)
unfolding next_poll_delay
next_poll_delay_bounds tier failures items adaptive draw = ground arith

two_pow_mono : (a b : ℕ) → a ≤ b → 2 ^ a ≤ 2 ^ b
two_pow_mono a b h = pow-le-pow_right (omega arith) h

adapted_suc :
    (tier : PollTier) (f items : ℕ) (adaptive : Bool)
    → adapted_interval tier (suc (suc f)) items adaptive
      ≡ adapted_interval tier (suc f) items adaptive
unfolding adapted_interval
adapted_suc tier f items adaptive = ground arith

adapted_first :
    (tier : PollTier) (items : ℕ) (adaptive : Bool)
    → adapted_interval tier 0 items adaptive ≤ adapted_interval tier 1 items adaptive * 2
unfolding adapted_interval
adapted_first tier items adaptive = ground arith

-- One more failure never shortens the interval that the jitter starts from.
pub backoff_mono :
    (tier : PollTier) (f items : ℕ) (adaptive : Bool)
    → base_delay tier f items adaptive ≤ base_delay tier (suc f) items adaptive
unfolding base_delay
backoff_mono tier zero items adaptive = adapted_first tier items adaptive
backoff_mono tier (suc f) items adaptive =
    rw (adapted_suc tier f items adaptive)
      (grind (arith, two_pow_mono (min (suc f) 6) (min (suc (suc f)) 6) (omega arith)))
