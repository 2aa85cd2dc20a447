-- ===== src/Model/Kinds.antt =====
-- backend/internal/model/model.go: SourceType, PollTier, HealthStatus, ArticleStatus and the
-- functions on them. Times and durations are nanoseconds, as Go's time.Duration.
use afghanistan_news.Base.{ℕ, ◌*◌, String, Bool, true, false, ◌||◌, str_eq, if◌then◌else◌}

pub data SourceType : Type 0 where
  validated_direct direct_publisher official_realtime official_institution : SourceType
  aggregator_topic aggregator_search opportunity_feed tender_feed unknown_source : SourceType

-- `other_tier` stands for any text that is none of the five constants.
pub data PollTier : Type 0 where
  breaking_tier high_tier normal_tier slow_tier opportunity_tier other_tier : PollTier

pub data HealthStatus : Type 0 where
  unknown healthy degraded unstable stale empty_feed parser_error http_error : HealthStatus
  rate_limited quarantined disabled : HealthStatus

pub data ArticleStatus : Type 0 where
  active hidden rejected : ArticleStatus

pub data Origin : Type 0 where
  feed_category rule editor model : Origin

abbrev pub second : ℕ
second = 1_000_000_000

abbrev pub minute : ℕ
minute = 60_000_000_000

abbrev pub hour : ℕ
hour = 3_600_000_000_000

unfoldable pub trust_weight : SourceType → ℕ
trust_weight official_realtime = 5
trust_weight official_institution = 5
trust_weight validated_direct = 5
trust_weight direct_publisher = 4
trust_weight opportunity_feed = 3
trust_weight tender_feed = 3
trust_weight aggregator_topic = 3
trust_weight aggregator_search = 2
trust_weight unknown_source = 1

abbrev pub is_topic_type : SourceType → Bool
is_topic_type aggregator_topic = true
is_topic_type _ = false

abbrev pub is_search_type : SourceType → Bool
is_search_type aggregator_search = true
is_search_type _ = false

unfoldable pub is_aggregator : SourceType → Bool
is_aggregator s = is_topic_type s || is_search_type s

-- `raw` is the attribute after strings.TrimSpace and strings.ToLower.
unfoldable pub parse_source_type : String → SourceType
parse_source_type raw =
    if str_eq raw "validated-direct"
    then validated_direct
    else if str_eq raw "direct"
    then direct_publisher
    else if str_eq raw "official-realtime"
    then official_realtime
    else if str_eq raw "official"
    then official_institution
    else if str_eq raw "aggregator-topic"
    then aggregator_topic
    else if str_eq raw "aggregator-search"
    then aggregator_search
    else if str_eq raw "opportunity"
    then opportunity_feed
    else if str_eq raw "tender"
    then tender_feed
    else unknown_source

unfoldable pub interval : PollTier → ℕ
interval breaking_tier = 3 * minute
interval high_tier = 5 * minute
interval normal_tier = 12 * minute
interval slow_tier = 30 * minute
interval opportunity_tier = 60 * minute
interval other_tier = 15 * minute
