-- ===== src/Parser/Feed.antt =====
-- backend/internal/feed/parser/parser.go: Parse, which chooses the dialect.
use afghanistan_news.Base.{
  ℕ, Option, none, some, List, [], ◌∷◌, ◌++◌, String, str_eq, length, if◌then◌else◌,
}
use afghanistan_news.Model.{Candidate}
use afghanistan_news.Text.Plain.{PlainLib}
use afghanistan_news.Parser.Xml.{Token, XmlError, XmlNode, parse_tree}
use afghanistan_news.Parser.Read.{name_of, document_root, child, descendants}
use afghanistan_news.Parser.Rss.{
  Format, Result, Warning, no_format, no_items, parse_rdf, parse_rss, recovered, unknown,
}
use afghanistan_news.Parser.Atom.{parse_atom}

abbrev pub if_empty : List Candidate → Result → Result → Option Result
if_empty [] r by_atom = some by_atom
if_empty (c ∷ cs) r by_atom = some r

abbrev pub choose : Option XmlNode → List XmlNode → Result → Result → Option Result
choose (some ch) items r by_atom = some r
choose none [] r by_atom = none
choose none (it ∷ items) r by_atom = if_empty r.candidates r by_atom

-- A document of another root: RSS, and Atom where that finds nothing; `none` is the error.
unfoldable pub parse_unknown : PlainLib → ℕ → XmlNode → Result → Option Result
unfolding child descendants parse_rss parse_atom
parse_unknown l now doc res =
    let r = parse_rss l now doc res in
    choose (child l doc ("channel" ∷ [])) (descendants l doc ("item" ∷ "entry" ∷ [])) r
      (parse_atom l now doc r)

unfoldable pub by_dialect : PlainLib → ℕ → XmlNode → Result → Option Result
unfolding parse_rss parse_rdf parse_atom parse_unknown
by_dialect l now doc res =
    if str_eq (l.lower (name_of doc)) "rss"
    then some (parse_rss l now doc res)
    else if str_eq (l.lower (name_of doc)) "rdf"
    then some (parse_rdf l now doc res)
    else if str_eq (l.lower (name_of doc)) "feed"
    then some (parse_atom l now doc res)
    else parse_unknown l now doc res

abbrev pub empty_result : List Warning → Result
empty_result warnings = record {
  meta = record {
    title = "";
    link = "";
    description = "";
    language = "";
    format = no_format;
    item_count = 0;
    warnings = warnings;
  };
  candidates = [];
}

abbrev pub known_format : Format → Format
known_format no_format = unknown
known_format f = f

unfoldable pub with_counts : Result → Result
with_counts res = record res {
  meta = record (res.meta) {
    item_count = length res.candidates;
    format = known_format res.meta.format;
    warnings = elim (res.candidates) [
      | [] ↦ res.meta.warnings ++ (no_items ∷ [])
      | c ∷ cs ↦ res.meta.warnings
    ];
  };
}

abbrev pub warnings_of : Option XmlError → List Warning
warnings_of none = []
warnings_of (some e) = recovered e ∷ []

-- Parse, on the tokens of the decoder and the error that ends them. The root is never nil.
unfoldable pub parse : PlainLib → ℕ → List Token → Option String → Option Result
unfolding parse_tree document_root by_dialect with_counts
parse l now ts ended =
    let t = parse_tree ts ended in
    elim (by_dialect l now (document_root t.0) (empty_result (warnings_of t.1))) [
      | none ↦ none
      | some res ↦ some (with_counts res)
    ]
