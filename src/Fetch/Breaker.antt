-- ===== src/Fetch/Breaker.antt =====
-- backend/internal/feed/fetcher/fetcher.go: the circuit breaker. The methods run under its mutex, so
-- each is one step; `now` is the clock at the call.
use afghanistan_news.Base.{
  ℕ, suc, ◌-◌, ◌*◌, String, Bool, true, false, Option, none, some, [], ltb, leb, if◌then◌else◌,
}
use afghanistan_news.Base.Maps
use afghanistan_news.Base.Maps.{Map, value_or}
use afghanistan_news.Model.{minute}

pub record Breaker : Type 0 where
  pub failures : Map ℕ
  pub open_at : Map ℕ
  pub threshold : ℕ
  pub cooldown : ℕ

unfoldable pub new_breaker : Breaker
new_breaker = record { failures = []; open_at = []; threshold = 6; cooldown = 5 * minute }

-- `true` is the nil error.
unfoldable pub allow_at : Option ℕ → Breaker → String → ℕ → Breaker × Bool
allow_at none b host now = (b, true)
allow_at (some t) b host now = if ltb (now - t) b.cooldown then (b, false) else (
  record b { open_at = Maps.delete b.open_at host; failures = Maps.put b.failures host 0 },
  true,
)

unfoldable pub allow : Breaker → String → ℕ → Breaker × Bool
unfolding allow_at
allow b host now = allow_at (Maps.get b.open_at host) b host now

unfoldable pub failure : Breaker → String → ℕ → Breaker
failure b host now =
    let n = suc (value_or 0 (Maps.get b.failures host)) in
    let counted = record b { failures = Maps.put b.failures host n } in
    if leb b.threshold n then record counted { open_at = Maps.put b.open_at host now } else counted

unfoldable pub success : Breaker → String → Breaker
success b host = record b {
  failures = Maps.put b.failures host 0;
  open_at = Maps.delete b.open_at host;
}
