-- ===== src/Examples/Public.antt =====
-- The public lists at concrete inputs.
use afghanistan_news.Base.{
  true, false, none, some, [], ◌∷◌, ◌≡◌, refl, leb, ◌↔◌, str_eq, if◌then◌else◌,
}
use afghanistan_news.Base.Sorting.{order_by}
use afghanistan_news.Model.{hidden}
use afghanistan_news.Query.Cursor.{Bytes, Codec}
use afghanistan_news.Api.Public.{RequestLib, Values}
use afghanistan_news.Api.Pages.{
  hydrate_cards, Site, handle_articles, handle_province_articles, handle_search,
}
use afghanistan_news.Api.Coverage.{
  Later, coverage_rows, handle_cluster, detail_related, handle_article_by_id, handle_rss,
}
use afghanistan_news.Api.CoverageLaws.{DetailActive, readers-ShowsActive}
use afghanistan_news.Api.Related.{ids, handle_related_articles, related_articles}
use afghanistan_news.Api.Caching.{etag_of, write_cached}
use afghanistan_news.Api.PagesLaws.{ShowsActive}
use afghanistan_news.Api.RelatedLaws.{OptionWithin, related_articles-Within}
use afghanistan_news.Api.CachingLaws.{body_after, is_unchanged, write_cached-body_after}
use afghanistan_news.Examples.Fixtures.{stored, no_articles, kabul}

abbrev codec : Codec
codec = record {
  encode64 = λ b. b;
  decode64 = λ b. some b;
  format_int = λ n. [];
  scan_int = λ b. some 0;
  is_blank = λ b. false;
}

abbrev requests : RequestLib
requests = record {
  trim = λ s. s;
  lower = λ s. s;
  natural = λ s. none;
  parse_rfc3339 = λ s. none;
  provinces = "kabul" ∷ [];
  category_exists = λ c. some true;
}

-- A story, one of the same cluster, one that was hidden, and one of the same category.
abbrev site : Site
site = record {
  lib = requests;
  codec = codec;
  hydrates = true;
  db = record {
    rows = record no_articles {
      articles =
          record stored { cluster_id = some "c1" }
          ∷ record stored { id = "a2"; cluster_id = some "c1" }
          ∷ record stored { id = "a3"; cluster_id = some "c1"; status = hidden }
          ∷ record stored { id = "a4" }
          ∷ [];
    };
    feeds = kabul ∷ [];
    now = 1_000_000_000_000_000_000;
    matches = λ q a. str_eq a.title q;
    rank = λ q a. 0;
    trust = λ s. 5;
    trim = λ s. s;
  };
}

abbrev no_values : Values
no_values key = if str_eq key "q" then "Dam opens in Herat" else ""

-- Unknown times come first.
abbrev unknown_first : Later
unknown_first none u = true
unknown_first (some t) none = false
unknown_first (some t) (some u) = leb u t

readers-ShowsActive_example :
    ShowsActive (handle_articles site no_values)
    × ShowsActive (handle_province_articles site "kabul" no_values)
    × ShowsActive (handle_search site no_values)
    × ShowsActive (handle_rss site no_values)
    × ShowsActive (handle_related_articles site "a1" no_values)
    × ShowsActive (handle_cluster unknown_first site "a1" no_values)
    × DetailActive (handle_article_by_id unknown_first site "a1")
readers-ShowsActive_example = readers-ShowsActive unknown_first site no_values "kabul" "a1"

-- The cluster of the first article has three, of which one was hidden.
two_reports :
    ids (detail_related unknown_first site (record stored { id = "a4"; cluster_id = some "c1" }))
    ≡ "a1" ∷ "a2" ∷ []
unfolding detail_related coverage_rows hydrate_cards order_by
two_reports = refl

related_articles-Within_example :
    OptionWithin
      (record stored { cluster_id = some "c1" })
      5
      (related_articles site (record stored { cluster_id = some "c1" }) 5)
related_articles-Within_example =
    related_articles-Within site (record stored { cluster_id = some "c1" }) 5

-- A hash that keeps the body.
abbrev as_it_is : Bytes → Bytes
as_it_is b = b

abbrev old_body : Bytes
old_body = 1 ∷ []

abbrev new_body : Bytes
new_body = 2 ∷ []

write_cached-body_after_example :
    let reply = write_cached as_it_is (etag_of as_it_is old_body) new_body in
    (body_after old_body reply ≡ new_body) × ((is_unchanged reply ≡ true) ↔ (old_body ≡ new_body))
write_cached-body_after_example =
    write_cached-body_after as_it_is old_body new_body (unfold etag_of in λ h. cc)
