-- ===== src/Examples/Fetching.antt =====
-- The fetcher at concrete inputs.
use afghanistan_news.Base.{
  ℕ, List, none, ◌≤◌, ◌≡◌, refl, some, false, [], ◌∷◌, str_eq, if◌then◌else◌, is_some,
}
use afghanistan_news.Base.Maps.{get, put, delete}
use afghanistan_news.Fetch.Ssrf.{
  v4, check_ip, check_host, is_special, is_blocked_host, is_internal_host, is_allowed_port,
  check_all, blocked_networks, is_metadata,
}
use afghanistan_news.Fetch.SsrfLaws.{in_closed_range, check_ip_exact}
use afghanistan_news.Fetch.Breaker.{Breaker, new_breaker, allow, allow_at, success}
use afghanistan_news.Fetch.BreakerLaws.{ask, circuit, perform, react, breaker_refines}
use afghanistan_news.Fetch.Limiter.{
  Limiter, new_domain_limiter, begin_acquire, take_slot, release_slot, recent, normalize_host,
}
use afghanistan_news.Fetch.LimiterLaws.{idle, here, next, look, enter, flights, in_flight_bounded}
use afghanistan_news.Fetch.Client.{
  on_answer, fetched, fetch, fetch_url, with_slot, holding, under_slot, accept_body,
  looks_like_html, read_limited,
}
use afghanistan_news.Fetch.ClientLaws.{IsUsable, WasGuarded, fetch-IsUsable}
use afghanistan_news.Fetch.Client.{Url}
use afghanistan_news.Examples.Environments.{fetcher, exchange, response}

check_ip_exact_example :
    is_some (check_ip false (some (v4 0x7F000001))) ≡ in_closed_range 0x7F000001
check_ip_exact_example = check_ip_exact 0x7F000001

-- A host whose circuit is open.
abbrev tripped : Breaker
tripped = record new_breaker { open_at = ("a", 7) ∷ [] }

breaker_refines_example :
    (circuit (perform ask tripped "a" 8).0 "a" ≡ (
      if str_eq "a" "a"
      then (react tripped.threshold tripped.cooldown ask 8 (circuit tripped "a")).0
      else circuit tripped "a"))
    × ((perform ask tripped "a" 8).1
        ≡ (react tripped.threshold tripped.cooldown ask 8 (circuit tripped "a")).1)
breaker_refines_example = breaker_refines ask tripped "a" "a" 8

refused_while_open : (perform ask tripped "a" 8).1 ≡ false
unfolding allow new_breaker get
refused_while_open = refl

abbrev looked_at : Limiter
looked_at = (begin_acquire (idle 2 30).limiter "kabul.example" 5).0

abbrev with_held : ℕ → List ℕ → Limiter
with_held n times = record {
  sems = ("kabul.example", n) ∷ [];
  window = ("kabul.example", times) ∷ [];
  max_con = 2;
  per_min = 30;
}

first_slot : take_slot looked_at "kabul.example" 5 ≡ some (with_held 1 (5 ∷ []))
unfolding take_slot begin_acquire new_domain_limiter get put recent
first_slot = refl

second_slot : take_slot (with_held 1 (5 ∷ [])) "kabul.example" 6 ≡ some (with_held 2 (5 ∷ 6 ∷ []))
unfolding take_slot get put
second_slot = refl

-- Two requests to one domain enter, and no third does.
in_flight_bounded_example : flights "kabul.example" ("kabul.example" ∷ "kabul.example" ∷ []) ≤ 2
in_flight_bounded_example =
    in_flight_bounded 2 30
      (record {
        limiter = with_held 2 (5 ∷ 6 ∷ []);
        flying = "kabul.example" ∷ "kabul.example" ∷ [];
      })
      "kabul.example"
      (next
        (next (next here (look (idle 2 30) "kabul.example" 5))
          (enter _ "kabul.example" 5 _ first_slot))
        (enter _ "kabul.example" 6 _ second_slot))

no_third : take_slot (with_held 2 (5 ∷ 6 ∷ [])) "kabul.example" 7 ≡ none
unfolding take_slot get
no_third = refl

answers : (fetch fetcher exchange).1 ≡ fetched response
unfolding fetch fetch_url with_slot holding under_slot check_host is_blocked_host is_internal_host
    is_allowed_port check_all check_ip is_special blocked_networks is_metadata allow allow_at get
    put delete new_breaker new_domain_limiter take_slot begin_acquire release_slot recent
    normalize_host success on_answer accept_body looks_like_html read_limited
answers = refl

fetch-IsUsable_example : IsUsable 4 response × (u : Url) × WasGuarded fetcher exchange u
fetch-IsUsable_example = fetch-IsUsable fetcher exchange response answers
