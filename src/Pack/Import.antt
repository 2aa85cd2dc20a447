-- ===== src/Pack/Import.antt =====
-- backend/internal/store/imports.go: ImportFeedPack, feedMetadataChanged and countFeedsMissingFromPack,
-- and UpsertSource of store/feeds.go. Of the errors of the database, that of a constraint is modelled.
use afghanistan_news.Base.{
  ℕ, suc, String, Bool, true, false, not, ◌&&◌, Option, none, some, List, [], ◌∷◌, str_eq, ◌==◌,
  length, any, find, count_where, if◌then◌else◌,
}
use afghanistan_news.Model.{
  Feed, SourceType, PollTier, trust_weight, unknown, validated_direct, direct_publisher,
  official_realtime, official_institution, aggregator_topic, aggregator_search, opportunity_feed,
  tender_feed, unknown_source, breaking_tier, high_tier, normal_tier, slow_tier, opportunity_tier,
  other_tier,
}
use afghanistan_news.Feeds.Writes.{FeedDb}
use afghanistan_news.Feeds.Import.{
  Upserted, feed_inserted, feed_updated, has_url, upsert_feed_from_import, is_missing,
  mark_feeds_missing,
}
use afghanistan_news.Pack.Outline.{Outline, poll_tier_for}
use afghanistan_news.Pack.Parse.{Walk, valid_feeds, invalid_feeds}

-- What the import takes from other packages: CanonicalizeURL of normalize (the normalized and the
-- canonical form, or an error), FeedID, and SourceIdentity (id, name and website).
pub record Naming : Type 0 where
  pub canonicalize : String → Option (String × String)
  pub feed_id : Outline → String
  pub source_identity : Outline → String × String × String

pub record SourceRow : Type 0 where
  pub id : String
  pub name : String
  pub website_url : String
  pub source_type : SourceType
  pub default_language : String
  pub trust : ℕ
  pub enabled : Bool
  pub created_at : ℕ
  pub updated_at : ℕ

pub record Registry : Type 0 where
  pub feeds : FeedDb
  pub sources : List SourceRow

-- The counters of model.FeedPackImport.
pub record Report : Type 0 where
  pub fresh : ℕ
  pub changed : ℕ
  pub unchanged : ℕ
  pub inserted : ℕ
  pub updated : ℕ
  pub invalid : ℕ
  pub missing : ℕ

-- ON CONFLICT (id) DO UPDATE, where an empty text leaves the column as it is.
unfoldable pub upsert_source : SourceRow → List SourceRow → List SourceRow
upsert_source s [] = s ∷ []
upsert_source s (r ∷ rs) =
    let rest = upsert_source s rs in
    if str_eq r.id s.id
    then record r {
      name = s.name;
      website_url = if str_eq s.website_url "" then r.website_url else s.website_url;
      source_type = s.source_type;
      default_language =
          if str_eq s.default_language "" then r.default_language else s.default_language;
      trust = s.trust;
      updated_at = s.updated_at;
    }
      ∷ rs
    else r ∷ rest

-- string(sourceType) and string(pollTier), as numbers.
unfoldable pub type_code : SourceType → ℕ
type_code validated_direct = 0
type_code direct_publisher = 1
type_code official_realtime = 2
type_code official_institution = 3
type_code aggregator_topic = 4
type_code aggregator_search = 5
type_code opportunity_feed = 6
type_code tender_feed = 7
type_code unknown_source = 8

unfoldable pub tier_code : PollTier → ℕ
tier_code breaking_tier = 0
tier_code high_tier = 1
tier_code normal_tier = 2
tier_code slow_tier = 3
tier_code opportunity_tier = 4
tier_code other_tier = 5

abbrev pub text_of : Option String → String
text_of none = ""
text_of (some t) = t

unfoldable pub feed_metadata_changed : Feed → Feed → Bool
unfolding type_code tier_code
feed_metadata_changed e i = not (
    str_eq e.title i.title
    && str_eq e.xml_url i.xml_url
    && str_eq e.html_url i.html_url
    && str_eq e.language i.language
    && str_eq e.scope i.scope
    && str_eq e.category_key i.category_key
    && type_code e.source_type == type_code i.source_type
    && e.priority == i.priority
    && tier_code e.poll_tier == tier_code i.poll_tier
    && str_eq (text_of e.feed_pack_version) (text_of i.feed_pack_version))

-- The feed that an outline stands for.
unfoldable pub feed_of : Naming → Outline → String → String → String → Feed
unfolding poll_tier_for
feed_of n o normalized canonical version = record {
  id = n.feed_id o;
  source_id = (n.source_identity o).0;
  source_name = (n.source_identity o).1;
  title = o.title;
  xml_url = o.xml_url;
  normalized_xml_url = normalized;
  html_url = if str_eq o.html_url "" then canonical else o.html_url;
  language = o.language;
  scope = o.scope;
  category_key = o.category_key;
  source_type = o.source_type;
  priority = o.priority;
  poll_tier = poll_tier_for o.source_type o.priority;
  enabled = true;
  health_status = unknown;
  health_score = 100;
  feed_pack_version = some version;
  etag = "";
  last_modified = "";
  last_checked_at = none;
  last_success_at = none;
  newest_item_at = none;
  next_poll_at = none;
  consecutive_failures = 0;
  needs_review = false;
  lease_owner = none;
  lease_until = none;
  created_at = 0;
  updated_at = 0;
}

-- The names of an outline, or none where the import skips it as invalid.
unfoldable pub names_of : Naming → Outline → Option (String × String)
names_of n o = elim (n.canonicalize o.xml_url) [
  | none ↦ none
  | some (normalized, canonical) ↦
      if str_eq normalized "" then none else some (normalized, canonical)
]

-- The comparison with the registry, which is made in a dry run too.
unfoldable pub tally : FeedDb → Feed → Report → Report
unfolding feed_metadata_changed
tally db f r = elim (find (has_url f.normalized_xml_url) db.feeds) [
  | none ↦ record r { fresh = suc r.fresh }
  | some e ↦
      if feed_metadata_changed e f
      then record r { changed = suc r.changed }
      else record r { unchanged = suc r.unchanged }
]

abbrev pub upserted : Upserted → Report → Report
upserted feed_inserted r = record r { inserted = suc r.inserted }
upserted feed_updated r = record r { updated = suc r.updated }

-- The source of an outline is written once in an import.
unfoldable pub source_of : Naming → Outline → ℕ → SourceRow
source_of n o now = record {
  id = (n.source_identity o).0;
  name = (n.source_identity o).1;
  website_url = (n.source_identity o).2;
  source_type = o.source_type;
  default_language = o.language;
  trust = trust_weight o.source_type;
  enabled = true;
  created_at = now;
  updated_at = now;
}

unfoldable pub write_source : SourceRow → List String → List SourceRow → List SourceRow
unfolding upsert_source
write_source s seen sources =
    if any (λ i. str_eq i s.id) seen then sources else upsert_source s sources

module _ (n : Naming) (version : String) (now : ℕ) where
  -- The loop over the valid outlines of a dry run.
  unfoldable pub dry_loop : List Outline → FeedDb → Report → Report
  dry_loop [] db r = r
  dry_loop (o ∷ os) db r = elim (names_of n o) [
    | none ↦ dry_loop os db (record r { invalid = suc r.invalid })
    | some (normalized, canonical) ↦
        dry_loop os db (tally db (feed_of n o normalized canonical version) r)
  ]

  -- The loop of an import that is committed; `none` is the error that ends it.
  unfoldable pub commit_loop :
      List Outline → List String → Registry → Report → Option (Registry × Report)
  commit_loop [] seen g r = some (g, r)
  commit_loop (o ∷ os) seen g r = elim (names_of n o) [
    | none ↦ commit_loop os seen g (record r { invalid = suc r.invalid })
    | some (normalized, canonical) ↦
        let f = feed_of n o normalized canonical version in
        elim (upsert_feed_from_import f version now g.feeds) [
          | none ↦ none
          | some (feeds, result) ↦
              commit_loop os (f.source_id ∷ seen)
                (record {
                  feeds = feeds;
                  sources = write_source (source_of n o now) seen g.sources;
                })
                (upserted result (tally g.feeds f r))
        ]
  ]

  -- knownURLs
  unfoldable pub known_urls : List Outline → List String
  known_urls [] = []
  known_urls (o ∷ os) =
      let rest = known_urls os in
      elim (names_of n o) [ none ↦ rest | some (normalized, canonical) ↦ normalized ∷ rest ]

  abbrev pub empty_report : ℕ → Report
  empty_report invalid = record {
    fresh = 0;
    changed = 0;
    unchanged = 0;
    inserted = 0;
    updated = 0;
    invalid = invalid;
    missing = 0;
  }

  -- countFeedsMissingFromPack
  unfoldable pub count_missing : List String → FeedDb → ℕ
  unfolding is_missing
  count_missing kept db = count_where (is_missing version kept) db.feeds

  -- ImportFeedPack with dryRun.
  unfoldable pub dry_run_import : Walk → Registry → Report
  unfolding dry_loop known_urls count_missing
  dry_run_import d g =
      let r = dry_loop (valid_feeds d) g.feeds (empty_report (length (invalid_feeds d))) in
      record r { missing = count_missing (known_urls (valid_feeds d)) g.feeds }

  -- ImportFeedPack without it.
  unfoldable pub commit : Walk → Registry → Option (Registry × Report)
  unfolding commit_loop known_urls mark_feeds_missing
  commit d g = elim (commit_loop (valid_feeds d) [] g (empty_report (length (invalid_feeds d)))) [
    | none ↦ none
    | some (g', r) ↦
        let marked = mark_feeds_missing version (known_urls (valid_feeds d)) now g'.feeds in
        some (record g' { feeds = marked.0 }, record r { missing = marked.1 })
  ]
