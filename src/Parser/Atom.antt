-- ===== src/Parser/Atom.antt =====
-- backend/internal/feed/parser/parser.go: parseAtom.
use afghanistan_news.Base.{
  ℕ, Bool, ◌&&◌, ◌||◌, Option, none, some, List, [], ◌∷◌, ◌++◌, String, str_eq, starts_with,
  if◌then◌else◌,
}
use afghanistan_news.Model.{Candidate}
use afghanistan_news.Text.Plain.{
  PlainLib, is_blank, strip_html, truncate, parse_date, extract_first_image,
}
use afghanistan_news.Parser.Xml.{XmlNode}
use afghanistan_news.Parser.Read.{
  child, children_matches, attr, inner_text, raw_text, first_node, first_non_empty,
}
use afghanistan_news.Parser.Items.{
  child_text, or_else, is_image_medium, category_texts, is_usable, if_some,
}
use afghanistan_news.Parser.Rss.{Result, atom}

abbrev pub is_alternate : String → Bool
is_alternate rel = is_blank rel || str_eq rel "alternate"

-- The loop over the links of the feed.
unfoldable pub feed_link : PlainLib → List XmlNode → String → String
unfolding attr first_non_empty
feed_link l [] link = link
feed_link l (n ∷ ns) link = feed_link l ns (
    if is_alternate (l.lower (attr l (some n) ("rel" ∷ [])))
    then first_non_empty l (attr l (some n) ("href" ∷ []) ∷ link ∷ [])
    else link)

-- The variables of the loop over the links of an entry.
pub record Links : Type 0 where
  pub alt : String
  pub first_link : String
  pub image_url : String

abbrev pub enclosed : PlainLib → XmlNode → String → String → String → String
enclosed l n href rel image =
    if str_eq rel "enclosure"
      && (starts_with (l.lower (attr l (some n) ("type" ∷ []))) "image/" && is_blank image)
    then href
    else image

unfoldable pub entry_links : PlainLib → List XmlNode → Links → Links
unfolding attr
entry_links l [] s = s
entry_links l (n ∷ ns) s =
    let href = attr l (some n) ("href" ∷ []) in
    let rel = l.lower (attr l (some n) ("rel" ∷ [])) in
    let first = or_else s.first_link href in
    let skipped = entry_links l ns s in
    let further =
      entry_links l ns
        (record s { first_link = first; image_url = enclosed l n href rel s.image_url }) in
    if is_blank href
    then skipped
    else if is_alternate rel
    then record s { first_link = first; alt = href }
    else further

unfoldable pub entry_author : PlainLib → XmlNode → String
unfolding child inner_text first_non_empty
entry_author l en = elim (child l en ("author" ∷ [])) [
  | none ↦ ""
  | some a ↦ first_non_empty l (child_text l a "name" ∷ inner_text l (some a) ∷ [])
]

unfoldable pub entry_image : PlainLib → XmlNode → String → String → String
unfolding first_node attr first_non_empty extract_first_image
entry_image l en enclosure content =
    let image : String = elim (first_node l en ("thumbnail" ∷ "content" ∷ [])) [
      | none ↦ enclosure
      | some m ↦
          if is_image_medium (attr l (some m) ("medium" ∷ []))
          then first_non_empty l (attr l (some m) ("url" ∷ []) ∷ enclosure ∷ [])
          else enclosure
    ] in
    or_else image (extract_first_image l content)

-- The body of the loop over the entries, up to the test.
unfoldable pub entry_fields : PlainLib → ℕ → String → XmlNode → Candidate
unfolding entry_links entry_author entry_image strip_html truncate parse_date first_non_empty
    inner_text attr child children_matches raw_text category_texts
entry_fields l now language en =
    let title = child l en ("title" ∷ []) in
    let links =
      entry_links l (children_matches l en ("link" ∷ []))
        (record { alt = ""; first_link = ""; image_url = "" }) in
    let summary = raw_text l (child l en ("summary" ∷ [])) in
    let content = l.trim_space (raw_text l (child l en ("content" ∷ []))) in
    let full = or_else content summary in
    record {
      external_guid = child_text l en "id";
      title =
          strip_html l (first_non_empty l (inner_text l title ∷ attr l title ("value" ∷ []) ∷ []));
      link = first_non_empty l (links.alt ∷ links.first_link ∷ []);
      summary =
          or_else (truncate l (strip_html l summary) 600) (truncate l (strip_html l content) 600);
      content = full;
      image_url = entry_image l en links.image_url full;
      author = entry_author l en;
      language = first_non_empty l (attr l (some en) ("lang" ∷ []) ∷ language ∷ []);
      published_at =
          parse_date l now
            (first_non_empty l (child_text l en "published" ∷ child_text l en "issued" ∷ []));
      updated_at =
          parse_date l now
            (first_non_empty l (child_text l en "updated" ∷ child_text l en "modified" ∷ []));
      raw_categories = category_texts l (children_matches l en ("category" ∷ []));
    }

unfoldable pub candidate_from_entry : PlainLib → ℕ → String → XmlNode → Option Candidate
unfolding entry_fields is_usable
candidate_from_entry l now language en =
    let c = entry_fields l now language en in if is_usable l c then some c else none

unfoldable pub from_entries : PlainLib → ℕ → String → List XmlNode → List Candidate
unfolding candidate_from_entry
from_entries l now language [] = []
from_entries l now language (en ∷ entries) =
    if_some (candidate_from_entry l now language en) (from_entries l now language entries)

unfoldable pub parse_atom : PlainLib → ℕ → XmlNode → Result → Result
unfolding feed_link strip_html inner_text child children_matches attr from_entries
parse_atom l now doc res =
    let language = or_else (attr l (some doc) ("lang" ∷ [])) res.meta.language in
    record {
      meta = record (res.meta) {
        format = atom;
        title = strip_html l (child_text l doc "title");
        link = feed_link l (children_matches l doc ("link" ∷ [])) res.meta.link;
        description = strip_html l (child_text l doc "subtitle");
        language = language;
      };
      candidates =
          res.candidates ++ from_entries l now language (children_matches l doc ("entry" ∷ []));
    }
