-- ===== src/Feeds/Activation.antt =====
-- backend/internal/store/activation.go: ApplyActivationWave, two UPDATE statements.
use afghanistan_news.Base.{
  ℕ, ◌+◌, Bool, true, false, not, ◌&&◌, ◌||◌, some, List, leb, if◌then◌else◌, count_where, is_some,
  update_where,
}
use afghanistan_news.Model.{
  Feed, SourceType, aggregator_topic, aggregator_search, unknown_source, is_topic_type,
  is_search_type,
}
use afghanistan_news.Feeds.Writes.{FeedDb, year}

-- The waves 1 to 4; a number outside is moved to the nearest, and `wave_of` does that.
pub data Wave : Type 0 where
  core discovery selected full : Wave

unfoldable pub wave_of : ℕ → Wave
wave_of n =
    if leb n 1 then core else if leb n 2 then discovery else if leb n 3 then selected else full

-- The list coreTypes.
abbrev pub is_core_type : SourceType → Bool
is_core_type aggregator_topic = false
is_core_type aggregator_search = false
is_core_type unknown_source = false
is_core_type _ = true

abbrev pub is_unknown_type : SourceType → Bool
is_unknown_type unknown_source = true
is_unknown_type _ = false

-- source_type IN toEnable
unfoldable pub in_to_enable : Wave → SourceType → Bool
in_to_enable core t = is_core_type t
in_to_enable discovery t = is_core_type t || is_topic_type t
in_to_enable selected t = is_core_type t || is_topic_type t
in_to_enable full t = is_core_type t || (is_topic_type t || is_search_type t)

-- The WHERE of the first statement.
unfoldable pub to_activate : Wave → Feed → Bool
unfolding in_to_enable
to_activate selected f =
    (in_to_enable selected f.source_type || is_search_type f.source_type && leb 3 f.priority)
    && (not f.enabled || not (is_some f.next_poll_at))
to_activate w f = in_to_enable w f.source_type && (not f.enabled || not (is_some f.next_poll_at))

-- The WHERE of the second statement.
unfoldable pub to_deactivate : Wave → Feed → Bool
unfolding in_to_enable
to_deactivate full f = is_unknown_type f.source_type && f.enabled
to_deactivate selected f =
    not (in_to_enable selected f.source_type)
    && (f.enabled && (not (leb 3 f.priority) || not (is_search_type f.source_type)))
to_deactivate w f = not (in_to_enable w f.source_type) && f.enabled

unfoldable pub activated : ℕ → Feed → Feed
activated now f = record f { enabled = true; next_poll_at = some now; updated_at = now }

unfoldable pub deactivated : ℕ → ℕ → Feed → Feed
deactivated now later f = record f {
  enabled = false;
  next_poll_at = some (later + year);
  updated_at = now;
}

-- `later` is the clock when the second statement's arguments are built. The two numbers are the
-- rows affected.
unfoldable pub apply_activation_wave : Wave → ℕ → ℕ → FeedDb → FeedDb × ℕ × ℕ
unfolding activated deactivated
apply_activation_wave w now later db =
    let on = update_where (to_activate w) (activated now) db.feeds in
    let off = update_where (to_deactivate w) (deactivated now later) on in
    (
      record db { feeds = off },
      count_where (to_activate w) db.feeds,
      count_where (to_deactivate w) on,
    )

-- What ActivationWaves reports for a wave.
unfoldable pub reported_enabled : Wave → List Feed → ℕ
reported_enabled w feeds =
    let core_count = count_where (λ (f : Feed). is_core_type f.source_type) feeds in
    let topic = count_where (λ (f : Feed). is_topic_type f.source_type) feeds in
    let high = count_where (λ (f : Feed). is_search_type f.source_type && leb 3 f.priority) feeds in
    elim w [
      | core ↦ core_count
      | discovery ↦ core_count + topic
      | selected ↦ core_count + topic + high
      | full ↦ count_where (λ (f : Feed). true) feeds
    ]
