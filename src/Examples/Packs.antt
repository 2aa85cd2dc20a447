-- ===== src/Examples/Packs.antt =====
-- Feed packs, canonical URLs and sanitized HTML at concrete inputs.
use afghanistan_news.Base.{
  ◌+◌, true, false, none, some, [], ◌∷◌, ◌≡◌, ◌≢◌, ◌≤◌, ◌==◌, ap, length, refl, All, arith, str_eq,
  if◌then◌else◌,
}
use afghanistan_news.Base.Keyset.{Pairwise}
use afghanistan_news.Base.Maps.{get, put}
use afghanistan_news.Base.Text.{codes, is_prefix}
use afghanistan_news.Query.Cursor.{Bytes}
use afghanistan_news.Text.Sanitize.{
  HtmlLib, text, element, Nodes, no_nodes, and_node, sanitize_pieces,
}
use afghanistan_news.Text.SanitizeLaws.{IsSafe, sanitize_pieces-IsSafe}
use afghanistan_news.Text.NestingLaws.{closes, sanitize_pieces_nested}
use afghanistan_news.Text.Canonical.{UrlLib, out_of_fuel, forms, canonicalize}
use afghanistan_news.Text.CanonicalLaws.{IsPlausible, canonicalize-ne-out}
use afghanistan_news.Pack.Outline.{Reading, Attributes, outline, XmlOutlines, no_outlines, and_then}
use afghanistan_news.Pack.Parse.{parse_outlines, valid_feeds}
use afghanistan_news.Pack.ParseLaws.{IsWebFeed, DistinctUrls, valid_feeds_lem}
use afghanistan_news.Pack.Import.{
  Naming, Registry, Report, names_of, feed_of, commit_loop, empty_report, known_urls,
  dry_run_import, commit,
}
use afghanistan_news.Feeds.Import.{upsert_feed_from_import}
use afghanistan_news.Pack.DryRunLaws.{SameCounts, dry_run_foretells}
use afghanistan_news.Examples.Fixtures.{feed_db}

abbrev html : HtmlLib
html = record {
  lower = λ s. s;
  escape = λ s. s;
  is_safe_url = λ s. str_eq s "https://kabul.example";
}

-- <div onclick=x><a href=javascript:x>Dam<script>x</script></a><br></div>
abbrev hostile : Nodes
hostile =
    and_node
      (element "div" false (("onclick", "x") ∷ []) (
        and_node
          (element "a" false (("href", "javascript:x") ∷ ("title", "Dam") ∷ []) (
            and_node (text "Dam")
              (and_node (element "script" false [] (and_node (text "x") no_nodes)) no_nodes)))
          (and_node (element "br" true [] no_nodes) no_nodes)))
      no_nodes

sanitize_pieces-IsSafe_example : All (IsSafe html) (sanitize_pieces html hostile)
sanitize_pieces-IsSafe_example = sanitize_pieces-IsSafe html hostile

sanitize_pieces_nested_example : closes [] (sanitize_pieces html hostile) ≡ some []
sanitize_pieces_nested_example = sanitize_pieces_nested html hostile

-- What stands after the first question mark.
abbrev query_of : Bytes → Bytes
query_of [] = []
query_of (c ∷ s) = let rest = query_of s in if c == 63 then s else rest

length-query_of : (b : Bytes) → length (query_of b) ≤ length b
length-query_of [] = omega arith
length-query_of (c ∷ s) = ground (arith, length-query_of s)

abbrev url_lib : UrlLib
url_lib = record {
  parse = λ b. some (record {
    scheme = codes "https";
    host =
        if is_prefix (codes "https://news.google.com/") b
        then codes "news.google.com"
        else codes "kabul.example";
    hostname = codes "kabul.example";
    port = [];
    path = codes "/1";
    raw_query = query_of b;
  });
  trim = λ b. b;
  lower = λ b. b;
  escape = λ b. b;
  sort_texts = λ l. l;
  sort_keys = λ l. l;
}

url_lib-IsPlausible : IsPlausible url_lib
url_lib-IsPlausible = record {
  query_inside = λ raw u e.
      let same : query_of raw ≡ u.raw_query = cc in
      omega (arith, length-query_of raw, ap length same);
  trim_shortens = λ raw. omega arith;
}

-- A redirect to a redirect to an article.
abbrev redirect : Bytes
redirect =
    codes "https://news.google.com/?url=https://news.google.com/?url=https%3A//kabul.example/1?a=b"

canonicalize-ne-out_example : canonicalize url_lib 90 redirect ≢ out_of_fuel
canonicalize-ne-out_example =
    canonicalize-ne-out url_lib 90 redirect url_lib-IsPlausible (omega arith)

article_reached :
    canonicalize url_lib 90 redirect
    ≡ forms (codes "https://kabul.example/1") (codes "https://kabul.example/1?a=b")
unfolding canonicalize
article_reached = refl

-- A folder with a feed, the same feed again, and an outline with a URL that is not of the web.
abbrev reading : Reading
reading = record {
  trim = λ s. s;
  lower = λ s. s;
  parse_url = λ s.
      if str_eq s "https://balkh.example/rss"
      then some (record { scheme = "https"; host = "balkh.example" })
      else some (record { scheme = "ftp"; host = "x" });
  slug = λ s. s;
  language_of = λ s. s;
  feed_url_key = λ s. s;
}

abbrev balkh : Attributes
balkh = record {
  text = "Balkh News";
  title = "";
  xml_url = "https://balkh.example/rss";
  html_url = "";
  language = "fa";
  source_type = "validated-direct";
  priority = "high";
  scope = "afghanistan";
  category_key = "";
}

abbrev folder : Attributes
folder = record balkh { text = "Provinces"; xml_url = "" }

abbrev body : XmlOutlines
body =
    and_then
      (outline folder
        (and_then (outline balkh no_outlines) (and_then (outline balkh no_outlines) no_outlines)))
      (and_then (outline (record balkh { xml_url = "ftp://x" }) no_outlines) no_outlines)

valid_feeds_lem_example :
    All (IsWebFeed reading) (valid_feeds (parse_outlines reading body))
    × Pairwise (DistinctUrls reading) (valid_feeds (parse_outlines reading body))
valid_feeds_lem_example = valid_feeds_lem reading body

abbrev naming : Naming
naming = record {
  canonicalize = λ u. some (u, u);
  feed_id = λ o. o.title;
  source_identity = λ o. ("s", o.title, "");
}

abbrev registry : Registry
registry = record { feeds = feed_db; sources = [] }

one_feed :
    known_urls naming "v2" 5 (valid_feeds (parse_outlines reading body))
    ≡ "https://balkh.example/rss" ∷ []
unfolding known_urls valid_feeds parse_outlines get put names_of
one_feed = refl

distinct :
    Pairwise (λ u v. u ≢ v) (known_urls naming "v2" 5 (valid_feeds (parse_outlines reading body)))
distinct = rw one_feed (tt, tt)

-- The registry and the report of the import.
imported_pack : Registry × Report
unfolding commit
imported_pack = elim (commit naming "v2" 5 (parse_outlines reading body) registry) [
  | none ↦ (registry, empty_report naming "v2" 5 0)
  | some result ↦ result
]

committed :
    commit naming "v2" 5 (parse_outlines reading body) registry
    ≡ some (imported_pack.0, imported_pack.1)
unfolding imported_pack commit commit_loop parse_outlines valid_feeds names_of get put
    upsert_feed_from_import feed_of
committed = refl

dry_run_foretells_example :
    SameCounts (dry_run_import naming "v2" 5 (parse_outlines reading body) registry) imported_pack.1
    × ((dry_run_import naming "v2" 5 (parse_outlines reading body) registry).missing
        ≡ imported_pack.1.missing)
    × (imported_pack.1.inserted ≡ imported_pack.1.fresh)
    × (imported_pack.1.updated ≡ imported_pack.1.changed + imported_pack.1.unchanged)
dry_run_foretells_example =
    dry_run_foretells naming "v2" 5 (parse_outlines reading body) registry imported_pack.0
      imported_pack.1 distinct committed
