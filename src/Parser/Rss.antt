-- ===== src/Parser/Rss.antt =====
-- backend/internal/feed/parser/parser.go: FeedMeta, Result, parseRSS and parseRDF.
use afghanistan_news.Base.{ℕ, none, some, List, [], ◌∷◌, ◌++◌, String}
use afghanistan_news.Model.{Candidate}
use afghanistan_news.Text.Plain.{PlainLib, strip_html}
use afghanistan_news.Parser.Xml.{XmlError, XmlNode}
use afghanistan_news.Parser.Read.{child, children_matches, descendants, inner_text}
use afghanistan_news.Parser.Items.{child_text, or_else, from_items}

pub data Format : Type 0 where
  no_format rss2 rdf atom unknown : Format

pub data Warning : Type 0 where
  recovered : XmlError → Warning
  no_items : Warning

pub record FeedMeta : Type 0 where
  pub title : String
  pub link : String
  pub description : String
  pub language : String
  pub format : Format
  pub item_count : ℕ
  pub warnings : List Warning

pub record Result : Type 0 where
  pub meta : FeedMeta
  pub candidates : List Candidate

unfoldable pub parse_rss : PlainLib → ℕ → XmlNode → Result → Result
unfolding child inner_text strip_html children_matches from_items
parse_rss l now doc res =
    let ch : XmlNode = elim (child l doc ("channel" ∷ [])) [ some c ↦ c | none ↦ doc ] in
    let language = child_text l ch "language" in
    record {
      meta = record (res.meta) {
        format = rss2;
        title = or_else (child_text l ch "title") (child_text l doc "title");
        link = child_text l ch "link";
        description = strip_html l (child_text l ch "description");
        language = language;
      };
      candidates =
          res.candidates ++ from_items l now language (children_matches l ch ("item" ∷ []));
    }

unfoldable pub rdf_meta : PlainLib → XmlNode → FeedMeta → FeedMeta
unfolding child inner_text strip_html
rdf_meta l doc meta = elim (child l doc ("channel" ∷ [])) [
  | none ↦ record meta { format = rdf }
  | some ch ↦ record meta {
    format = rdf;
    title = child_text l ch "title";
    link = child_text l ch "link";
    description = strip_html l (child_text l ch "description");
  }
]

unfoldable pub parse_rdf : PlainLib → ℕ → XmlNode → Result → Result
unfolding rdf_meta children_matches descendants from_items
parse_rdf l now doc res =
    let items : List XmlNode = elim (children_matches l doc ("item" ∷ [])) [
      | [] ↦ descendants l doc ("item" ∷ [])
      | it ∷ its ↦ it ∷ its
    ] in
    record {
      meta = rdf_meta l doc res.meta;
      candidates = res.candidates ++ from_items l now res.meta.language items;
    }
