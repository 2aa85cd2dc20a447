-- ===== src/Pack/Outline.antt =====
-- backend/internal/feed/opml/opml.go: outlines, their priority and tier, and validateOutline. The
-- messages of the errors are constructors; net/url and the functions on texts are the record Reading.
use afghanistan_news.Base.{
  ℕ, String, Bool, not, ◌||◌, Option, none, some, str_eq, leb, if◌then◌else◌,
}
use afghanistan_news.Model.{
  SourceType, official_realtime, validated_direct, direct_publisher, opportunity_feed, tender_feed,
  aggregator_search, PollTier, breaking_tier, high_tier, opportunity_tier, slow_tier, normal_tier,
}

-- The parts of a URL that are looked at.
pub record UrlParts : Type 0 where
  pub scheme : String
  pub host : String

-- TrimSpace and ToLower, url.Parse, and three functions of opml.go that work on characters: slug,
-- normalizeLanguage and normalizeFeedURL.
pub record Reading : Type 0 where
  pub trim : String → String
  pub lower : String → String
  pub parse_url : String → Option UrlParts
  pub slug : String → String
  pub language_of : String → String
  pub feed_url_key : String → String

-- The attributes of an <outline>, and its children.
pub record Attributes : Type 0 where
  pub text : String
  pub title : String
  pub xml_url : String
  pub html_url : String
  pub language : String
  pub source_type : String
  pub priority : String
  pub scope : String
  pub category_key : String

mutual
  pub data XmlOutline : Type 0 where
    outline : Attributes → XmlOutlines → XmlOutline

  pub data XmlOutlines : Type 0 where
    no_outlines : XmlOutlines
    and_then : XmlOutline → XmlOutlines → XmlOutlines

pub data Invalid : Type 0 where
  invalid_url missing_host missing_title : Invalid
  unsupported_scheme duplicate_url : String → Invalid

pub record Outline : Type 0 where
  pub title : String
  pub xml_url : String
  pub html_url : String
  pub language : String
  pub source_type : SourceType
  pub priority : ℕ
  pub scope : String
  pub category_key : String
  pub folder_key : String
  pub folder_title : String
  pub invalid : Option Invalid

unfoldable pub first_non_empty : Reading → String → String → String
first_non_empty r a b =
    if not (str_eq (r.trim a) "")
    then r.trim a
    else if not (str_eq (r.trim b) "")
    then r.trim b
    else ""

-- strings.EqualFold is read as equality in lower case.
unfoldable pub map_priority : Reading → String → String → ℕ
map_priority r raw kind =
    let k = r.lower (r.trim kind) in
    let p = r.lower (r.trim raw) in
    if str_eq k "official-realtime"
    then 5
    else if str_eq k "validated-direct"
    then (if str_eq p "low" then 4 else 5)
    else if str_eq k "experimental"
    then 1
    else if str_eq p "high" || str_eq p "urgent" || str_eq p "5"
    then 4
    else if str_eq p "normal" || str_eq p "3"
    then 3
    else if str_eq p "low" || str_eq p "2"
    then 2
    else if str_eq p "1"
    then 1
    else 3

unfoldable pub poll_tier_for : SourceType → ℕ → PollTier
poll_tier_for official_realtime priority = breaking_tier
poll_tier_for validated_direct priority = if leb 5 priority then high_tier else normal_tier
poll_tier_for direct_publisher priority = if leb 4 priority then high_tier else normal_tier
poll_tier_for opportunity_feed priority = opportunity_tier
poll_tier_for tender_feed priority = opportunity_tier
poll_tier_for aggregator_search priority = if leb priority 2 then slow_tier else normal_tier
poll_tier_for _ priority = normal_tier

abbrev pub is_web : String → Bool
is_web scheme = str_eq scheme "http" || str_eq scheme "https"

-- The error of validateOutline.
unfoldable pub outline_error : Reading → Outline → Option Invalid
outline_error r o = elim (r.parse_url o.xml_url) [
  | none ↦ some invalid_url
  | some u ↦
      if not (is_web (r.lower u.scheme))
      then some (unsupported_scheme u.scheme)
      else if str_eq u.host ""
      then some missing_host
      else if str_eq (r.trim o.title) ""
      then some missing_title
      else none
]

-- An HTML URL that is not one of the web is dropped.
unfoldable pub clean_html : Reading → String → String
clean_html r html = elim (r.parse_url html) [
  | none ↦ ""
  | some u ↦ if is_web u.scheme then html else ""
]

-- validateOutline: the outline as it leaves it, and its error.
unfoldable pub validate_outline : Reading → Outline → Outline × Option Invalid
unfolding outline_error clean_html
validate_outline r o = elim (outline_error r o) [
  | some e ↦ (o, some e)
  | none ↦ (record o { html_url = clean_html r o.html_url }, none)
]
