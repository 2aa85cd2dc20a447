-- ===== src/Parser/Items.antt =====
-- backend/internal/feed/parser/parser.go: candidateFromItem and the loop of parseRSS and parseRDF over
-- the items. The clock is taken to stand still while a document is read.
use afghanistan_news.Base.{
  ℕ, Bool, not, ◌&&◌, ◌||◌, Option, none, some, List, [], ◌∷◌, String, str_eq, starts_with,
  if◌then◌else◌,
}
use afghanistan_news.Model.{Candidate}
use afghanistan_news.Text.Plain.{
  PlainLib, is_blank, strip_html, truncate, parse_date, extract_first_image, is_safe_external_url,
}
use afghanistan_news.Parser.Xml.{XmlNode}
use afghanistan_news.Parser.Read.{
  child, children_matches, descendants, attr, inner_text, raw_text, first_node, first_text,
  first_non_empty,
}

-- The text below one child.
abbrev pub child_text : PlainLib → XmlNode → String → String
child_text l n name = inner_text l (child l n (name ∷ []))

abbrev pub or_else : String → String → String
or_else a b = if is_blank a then b else a

unfoldable pub item_link : PlainLib → XmlNode → String
unfolding inner_text attr child
item_link l it = or_else (child_text l it "link") (attr l (child l it ("link" ∷ [])) ("href" ∷ []))

unfoldable pub item_guid : PlainLib → XmlNode → String
unfolding inner_text attr child first_non_empty
item_guid l it =
    let is_perma_link = attr l (child l it ("guid" ∷ [])) ("isPermaLink" ∷ []) in
    if l.equal_fold is_perma_link "false"
    then child_text l it "guid"
    else first_non_empty l (child_text l it "guid" ∷ is_perma_link ∷ child_text l it "id" ∷ [])

unfoldable pub item_content : PlainLib → XmlNode → String
unfolding first_node raw_text
item_content l it = elim (first_node l it ("encoded" ∷ "content" ∷ "body" ∷ "fulltext" ∷ [])) [
  | some content ↦ l.trim_space (raw_text l (some content))
  | none ↦ l.trim_space (raw_text l (first_node l it ("description" ∷ "summary" ∷ [])))
]

unfoldable pub item_author : PlainLib → XmlNode → String
unfolding inner_text child first_non_empty
item_author l it =
    let author =
      first_non_empty l
        (child_text l it "creator" ∷ child_text l it "author" ∷ child_text l it "name" ∷ []) in
    elim (child l it ("author" ∷ [])) [
      | none ↦ author
      | some a ↦
          if is_blank (inner_text l (some a))
          then first_non_empty l (child_text l a "name" ∷ author ∷ [])
          else author
    ]

abbrev pub is_image_medium : String → Bool
is_image_medium medium = is_blank medium || str_eq medium "image"

unfoldable pub media_image : PlainLib → XmlNode → String
unfolding first_node attr
media_image l it = elim (first_node l it ("thumbnail" ∷ "content" ∷ [])) [
  | none ↦ ""
  | some m ↦
      if is_image_medium (attr l (some m) ("medium" ∷ [])) then attr l (some m) ("url" ∷ []) else ""
]

unfoldable pub enclosure_image : PlainLib → XmlNode → String
unfolding child attr
enclosure_image l it = elim (child l it ("enclosure" ∷ [])) [
  | none ↦ ""
  | some enc ↦
      if starts_with (l.lower (attr l (some enc) ("type" ∷ []))) "image/"
      then attr l (some enc) ("url" ∷ [])
      else ""
]

unfoldable pub item_image : PlainLib → XmlNode → String
unfolding media_image enclosure_image first_node raw_text item_content extract_first_image
item_image l it = or_else (media_image l it) (
    or_else (enclosure_image l it) (
      or_else
        (extract_first_image l (raw_text l (first_node l it ("description" ∷ "summary" ∷ []))))
        (extract_first_image l (item_content l it))))

-- The loop over the nodes of categories.
unfoldable pub category_texts : PlainLib → List XmlNode → List String
unfolding first_non_empty attr inner_text
category_texts l [] = []
category_texts l (c ∷ cs) =
    let rest = category_texts l cs in
    let v = first_non_empty l (attr l (some c) ("term" ∷ []) ∷ inner_text l (some c) ∷ []) in
    if is_blank v then rest else v ∷ rest

unfoldable pub item_categories : PlainLib → XmlNode → List String
unfolding category_texts children_matches descendants
item_categories l it =
    elim (category_texts l (children_matches l it ("category" ∷ "subject" ∷ []))) [
      | [] ↦ category_texts l (descendants l it ("category" ∷ []))
      | c ∷ cs ↦ c ∷ cs
    ]

unfoldable pub item_published : PlainLib → ℕ → XmlNode → Option ℕ
unfolding parse_date first_non_empty inner_text child
item_published l now it = parse_date l now (
    first_non_empty l (
      child_text l it "pubDate"
      ∷ child_text l it "date"
      ∷ child_text l it "published"
      ∷ child_text l it "issued"
      ∷ []))

unfoldable pub item_updated : PlainLib → ℕ → XmlNode → Option ℕ
unfolding parse_date first_non_empty inner_text child
item_updated l now it =
    parse_date l now
      (first_non_empty l (child_text l it "updated" ∷ child_text l it "modified" ∷ []))

-- The GUID stands in for a link that is not safe.
unfoldable pub chosen_link : PlainLib → String → String → String
unfolding is_safe_external_url
chosen_link l link guid =
    if not (is_safe_external_url l link) && (not (is_blank guid) && is_safe_external_url l guid)
    then guid
    else link

-- What both parsers ask of a candidate.
unfoldable pub is_usable : PlainLib → Candidate → Bool
unfolding is_safe_external_url
is_usable l c = not (is_blank (l.trim_space c.title) || not (is_safe_external_url l c.link))

unfoldable pub item_fields : PlainLib → ℕ → String → XmlNode → Candidate
unfolding strip_html first_text item_link item_guid item_content item_author item_image
    item_categories item_published item_updated chosen_link truncate raw_text first_node
item_fields l now language it = record {
  external_guid = item_guid l it;
  title = strip_html l (first_text l it ("title" ∷ []));
  link = chosen_link l (item_link l it) (item_guid l it);
  summary =
      truncate l (strip_html l (raw_text l (first_node l it ("description" ∷ "summary" ∷ [])))) 600;
  content = item_content l it;
  image_url = item_image l it;
  author = item_author l it;
  language = language;
  published_at = item_published l now it;
  updated_at = item_updated l now it;
  raw_categories = item_categories l it;
}

unfoldable pub candidate_from_item : PlainLib → ℕ → String → XmlNode → Option Candidate
unfolding item_fields is_usable
candidate_from_item l now language it =
    let c = item_fields l now language it in if is_usable l c then some c else none

abbrev pub if_some {ℓ} : {A : Type ℓ} → Option A → List A → List A
if_some none rest = rest
if_some (some a) rest = a ∷ rest

-- The candidates of a list of items.
unfoldable pub from_items : PlainLib → ℕ → String → List XmlNode → List Candidate
unfolding candidate_from_item
from_items l now language [] = []
from_items l now language (it ∷ items) =
    if_some (candidate_from_item l now language it) (from_items l now language items)
