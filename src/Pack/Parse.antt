-- ===== src/Pack/Parse.antt =====
-- backend/internal/feed/opml/opml.go: the walk of Parse over the tree of outlines, ValidFeeds and
-- InvalidFeeds. The decoding of XML is outside.
use afghanistan_news.Base.{
  ℕ, suc, String, Bool, not, Option, none, some, List, [], ◌∷◌, ◌++◌, str_eq, is_some, select,
  if◌then◌else◌,
}
use afghanistan_news.Base.Maps.{Map, get, put}
use afghanistan_news.Model.{parse_source_type}
use afghanistan_news.Pack.Outline.{
  Reading, Attributes, XmlOutline, outline, XmlOutlines, no_outlines, and_then, Invalid,
  duplicate_url, Outline, first_non_empty, map_priority, validate_outline,
}

-- What the walk has found: the outlines in the order of the document, the titles by URL, the number
-- of the errors and of the folders.
pub record Walk : Type 0 where
  pub outlines : List Outline
  pub seen : Map String
  pub errors : ℕ
  pub folders : ℕ

unfoldable pub new_outline : Reading → Attributes → String → String → Outline
unfolding first_non_empty map_priority
new_outline r a folder_key folder_title = record {
  title = first_non_empty r a.title a.text;
  xml_url = r.trim a.xml_url;
  html_url = r.trim a.html_url;
  language = r.language_of a.language;
  source_type = parse_source_type (r.lower (r.trim a.source_type));
  priority = map_priority r a.priority a.source_type;
  scope = r.trim a.scope;
  category_key = first_non_empty r a.category_key folder_key;
  folder_key = folder_key;
  folder_title = folder_title;
  invalid = none;
}

unfoldable pub folder_key_of : Reading → Attributes → String
folder_key_of r a =
    if not (str_eq (r.trim a.category_key) "")
    then r.trim a.category_key
    else if not (str_eq (r.slug a.title) "")
    then r.slug a.title
    else r.slug a.text

-- An outline that is not valid is kept with its error.
unfoldable pub reject : Outline → Invalid → Walk → Walk
reject o e w = record w {
  outlines = w.outlines ++ (record o { invalid = some e } ∷ []);
  errors = suc w.errors;
}

-- A valid outline is kept unless an earlier one has its URL.
unfoldable pub place : Reading → Outline → Option Invalid → Walk → Walk
unfolding reject
place r o (some e) w = reject o e w
place r o none w = elim (get w.seen (r.feed_url_key o.xml_url)) [
  | some prev ↦ reject o (duplicate_url prev) w
  | none ↦ record w {
    outlines = w.outlines ++ (o ∷ []);
    seen = put w.seen (r.feed_url_key o.xml_url) o.title;
  }
]

unfoldable pub add_outline : Reading → Outline → Walk → Walk
unfolding place validate_outline
add_outline r o w = let v = validate_outline r o in place r v.0 v.1 w

unfoldable pub is_feed : Reading → Attributes → Bool
is_feed r a = not (str_eq (r.trim a.xml_url) "")

unfoldable mutual
  unfolding is_feed add_outline new_outline folder_key_of

  pub walk : Reading → XmlOutlines → String → String → Walk → Walk
  walk r no_outlines key title w = w
  walk r (and_then n ns) key title w = walk r ns key title (walk_one r n key title w)

  pub walk_one : Reading → XmlOutline → String → String → Walk → Walk
  walk_one r (outline a children) key title w =
      let inside =
        walk r children (folder_key_of r a) (first_non_empty r a.title a.text)
          (record w { folders = suc w.folders }) in
      if is_feed r a then add_outline r (new_outline r a key title) w else inside

unfoldable pub parse_outlines : Reading → XmlOutlines → Walk
unfolding walk
parse_outlines r body =
    walk r body "" "" (record { outlines = []; seen = []; errors = 0; folders = 0 })

unfoldable pub valid_feeds : Walk → List Outline
valid_feeds d = select (λ (o : Outline). not (is_some o.invalid)) d.outlines

unfoldable pub invalid_feeds : Walk → List Outline
invalid_feeds d = select (λ (o : Outline). is_some o.invalid) d.outlines
