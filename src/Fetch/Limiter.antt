-- ===== src/Fetch/Limiter.antt =====
-- backend/internal/feed/fetcher/fetcher.go: the domain limiter. Acquire is two steps, for it gives up
-- its mutex while it waits: the look at the rate window, and the taking of a slot of the domain's
-- buffered channel, of which the model keeps the number of values in it. The host is in lower case.
use Prim.Native.String.{◌++◌ as ◌+++◌}
use afghanistan_news.Base.{
  ℕ, suc, ◌-◌, String, Option, none, some, List, [], ◌∷◌, ◌++◌, ltb, leb, if◌then◌else◌, length,
  select,
}
use afghanistan_news.Base.Maps
use afghanistan_news.Base.Maps.{Map, value_or}
use afghanistan_news.Base.Text.{split_on}
use afghanistan_news.Model.{minute}

pub record Limiter : Type 0 where
  pub sems : Map ℕ
  pub window : Map (List ℕ)
  pub max_con : ℕ
  pub per_min : ℕ

unfoldable pub new_domain_limiter : ℕ → ℕ → Limiter
new_domain_limiter max_concurrency per_minute = record {
  sems = [];
  window = [];
  max_con = max_concurrency;
  per_min = per_minute;
}

-- The last two labels, joined; `whole` is the answer where there are not more than two.
abbrev pub last_two : String → List String → String
last_two whole [] = whole
last_two whole (a ∷ []) = whole
last_two whole (a ∷ b ∷ []) = a +++ "." +++ b
last_two whole (a ∷ b ∷ (c ∷ rest)) = last_two whole (b ∷ c ∷ rest)

unfoldable pub normalize_host : String → String
normalize_host host =
    let parts = split_on b'.' host in if ltb 2 (length parts) then last_two host parts else host

-- The window without the entries that are a minute old or more.
unfoldable pub recent : ℕ → List ℕ → List ℕ
recent now = select (λ t. ltb (now - t) minute)

-- wait: a minute from the oldest entry that counts, if there are too many.
abbrev pub wait_for : ℕ → ℕ → List ℕ → ℕ
wait_for per_min now [] = 0
wait_for per_min now (t ∷ ts) = if leb per_min (length (t ∷ ts)) then minute - (now - t) else 0

-- Acquire up to the unlock: the limiter, and the time to wait.
unfoldable pub begin_acquire : Limiter → String → ℕ → Limiter × ℕ
unfolding recent
begin_acquire l domain now =
    let kept = recent now (value_or [] (Maps.get l.window domain)) in
    (
      record l {
        sems = Maps.put l.sems domain (value_or 0 (Maps.get l.sems domain));
        window = Maps.put l.window domain kept;
      },
      wait_for l.per_min now kept,
    )

-- sem <- struct{}{} and the note in the window; `none` blocks.
unfoldable pub take_slot : Limiter → String → ℕ → Option Limiter
take_slot l domain now =
    let held = value_or 0 (Maps.get l.sems domain) in
    if ltb held l.max_con
    then some (record l {
      sems = Maps.put l.sems domain (suc held);
      window = Maps.put l.window domain (value_or [] (Maps.get l.window domain) ++ now ∷ []);
    })
    else none

-- Release: the receive from an empty channel takes the default.
unfoldable pub release_slot : Limiter → String → Limiter
release_slot l domain = elim (Maps.get l.sems domain) [
  | none ↦ l
  | some held ↦ record l { sems = Maps.put l.sems domain (held - 1) }
]
