-- ===== src/Examples/Fixtures.antt =====
-- Concrete feeds, articles and environments for the examples.
use afghanistan_news.Base.{true, false, none, some, [], ◌∷◌}
use afghanistan_news.Model.{Feed, official_realtime, high_tier, healthy, active}
use afghanistan_news.Articles.Rows.{Texts, ArticleInput, Article, Cluster, ArticleDb}
use afghanistan_news.Feeds.Writes.{FeedDb}
use afghanistan_news.Push.Store.{PushDb}
use afghanistan_news.Push.Notify.{Faults, Outside, PushOptions, delivered}

abbrev pub kabul : Feed
kabul = record {
  id = "f1";
  source_id = "s1";
  source_name = "Kabul Daily";
  xml_url = "https://kabul.example/rss";
  normalized_xml_url = "https://kabul.example/rss";
  html_url = "";
  title = "Kabul Daily";
  language = "en";
  scope = "afghanistan";
  category_key = "news";
  source_type = official_realtime;
  priority = 5;
  poll_tier = high_tier;
  enabled = true;
  health_status = healthy;
  etag = "";
  last_modified = "";
  last_checked_at = none;
  last_success_at = none;
  newest_item_at = none;
  next_poll_at = none;
  consecutive_failures = 0;
  health_score = 100;
  feed_pack_version = none;
  needs_review = false;
  lease_owner = none;
  lease_until = none;
  created_at = 0;
  updated_at = 0;
}

abbrev pub herat : Feed
herat = record kabul {
  id = "f2";
  normalized_xml_url = "https://herat.example/rss";
  priority = 3;
  lease_owner = some "w0";
  lease_until = some 900;
}

abbrev pub feed_db : FeedDb
feed_db = record { feeds = kabul ∷ herat ∷ []; events = []; runs = [] }

abbrev pub texts : Texts
texts = record { trim = λ s. s; lower = λ s. s; sha1_hex = λ s. s }

abbrev pub report : ArticleInput
report = record {
  id = "a1";
  source_id = "s1";
  feed_id = "f1";
  external_guid = "g1";
  canonical_url = "https://kabul.example/1";
  original_url = "https://kabul.example/1";
  normalized_url = "https://kabul.example/1";
  title = "Dam opens in Herat";
  normalized_title = "dam opens in herat";
  summary = "A dam.";
  feed_content = "";
  image_url = "";
  author = "";
  published_at = some 500;
  updated_at = none;
  discovered_at = 1000;
  language = "en";
  content_hash = "h1";
  categories = [];
  provinces = [];
  opportunity = none;
  title_fingerprint = "t1";
}

abbrev pub no_articles : ArticleDb
no_articles = record {
  articles = [];
  clusters = [];
  categories = [];
  provinces = [];
  opportunities = [];
}

abbrev pub stored : Article
stored = record {
  id = "a1";
  source_id = "s1";
  feed_id = some "f1";
  external_guid = some "g1";
  canonical_url = "https://kabul.example/1";
  original_url = "https://kabul.example/1";
  normalized_url = "https://kabul.example/1";
  title = "Dam opens in Herat";
  normalized_title = "dam opens in herat";
  summary = none;
  feed_content = none;
  image_url = none;
  author = none;
  published_at = some 500;
  updated_at = none;
  discovered_at = 1000;
  language = "en";
  is_breaking = false;
  breaking_score = 0;
  cluster_id = none;
  content_hash = some "h1";
  status = active;
}

abbrev pub dam_story : Cluster
dam_story = record {
  id = "c1";
  representative_article_id = "a2";
  topic_key = "t1";
  first_seen_at = 400;
  last_seen_at = 400;
  article_count = 1;
}

abbrev pub two_articles : ArticleDb
two_articles = record no_articles {
  articles = stored ∷ record stored { id = "a2"; cluster_id = some "c1" } ∷ [];
  clusters = dam_story ∷ [];
}

abbrev pub no_push : PushDb
no_push = record { registrations = []; subscriptions = []; events = [] }

abbrev pub no_faults : Faults
no_faults = record {
  exists_fails = false;
  hour_fails = false;
  day_fails = false;
  audience_fails = false;
  record_fails = false;
}

abbrev pub push_options : PushOptions
push_options = record { dry = false; max_per_hour = 4; max_per_day = 20 }

abbrev pub outside : Outside
outside = record { texts = texts; send = λ _. delivered false; truncate_body = λ s. s }
