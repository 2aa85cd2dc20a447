-- ===== src/Feeds/ActivationLaws.antt =====
-- What an activation wave leaves enabled (backend/internal/store/activation.go).
use afghanistan_news.Base.{
  ℕ, ◌+◌, ◌≡◌, Bool, List, [], ◌∷◌, arith, leb, count_where, update_where, All, if◌then◌else◌,
}
use afghanistan_news.Model.{Feed, SourceType, aggregator_topic, aggregator_search, unknown_source}
use afghanistan_news.Feeds.Writes.{FeedDb}
use afghanistan_news.Feeds.Activation.{
  Wave, core, discovery, selected, full, is_unknown_type, to_activate, to_deactivate, activated,
  deactivated, apply_activation_wave, reported_enabled,
}

-- The first wave that a feed joins, as the comment on ActivationWave lists them; a feed of unknown
-- type joins none.
abbrev pub joins : SourceType → ℕ → ℕ
joins aggregator_topic priority = 2
joins aggregator_search priority = if leb 3 priority then 3 else 4
joins unknown_source priority = 5
joins _ priority = 1

abbrev pub number : Wave → ℕ
number core = 1
number discovery = 2
number selected = 3
number full = 4

abbrev pub in_wave : Wave → SourceType → ℕ → Bool
in_wave w t priority = leb (joins t priority) (number w)

abbrev pub IsSettled : Wave → Feed → Type 0
IsSettled w f = f.enabled ≡ in_wave w f.source_type f.priority

wave_row :
    (w : Wave) (now later : ℕ) (f : Feed)
    → let g = if to_activate w f then activated now f else f in
      IsSettled w (if to_deactivate w g then deactivated now later g else g)
unfolding to_activate to_deactivate activated deactivated
wave_row core now later f = ground arith
wave_row discovery now later f = ground arith
wave_row selected now later f = ground arith
wave_row full now later f = ground arith

wave_rows :
    (w : Wave) (now later : ℕ) (feeds : List Feed)
    → All (IsSettled w) (
        update_where
          (to_deactivate w)
          (deactivated now later)
          (update_where (to_activate w) (activated now) feeds))
wave_rows w now later [] = tt
wave_rows w now later (f ∷ fs) = (wave_row w now later f, wave_rows w now later fs)

-- After a wave is applied a feed is enabled exactly when its type and priority belong to the wave,
-- whatever was enabled before.
pub wave_exact :
    (w : Wave) (now later : ℕ) (db : FeedDb)
    → All (IsSettled w) (apply_activation_wave w now later db).0.feeds
unfolding apply_activation_wave
wave_exact w now later db = wave_rows w now later db.feeds

abbrev pub count_wave : Wave → List Feed → ℕ
count_wave w = count_where (λ (f : Feed). in_wave w f.source_type f.priority)

abbrev pub unknowns : Wave → List Feed → ℕ
unknowns full feeds = count_where (λ (f : Feed). is_unknown_type f.source_type) feeds
unknowns w feeds = 0

-- What the console reports for a wave is the number of its feeds, but for the last one: there it
-- also counts the feeds of unknown type, which the wave disables.
pub reported_exact :
    (w : Wave) (feeds : List Feed)
    → reported_enabled w feeds ≡ count_wave w feeds + unknowns w feeds
unfolding reported_enabled
reported_exact core [] = omega arith
reported_exact discovery [] = omega arith
reported_exact selected [] = omega arith
reported_exact full [] = omega arith
reported_exact core (f ∷ fs) = ground (arith, reported_exact core fs)
reported_exact discovery (f ∷ fs) = ground (arith, reported_exact discovery fs)
reported_exact selected (f ∷ fs) = ground (arith, reported_exact selected fs)
reported_exact full (f ∷ fs) = ground (arith, reported_exact full fs)
