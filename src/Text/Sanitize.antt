-- ===== src/Text/Sanitize.antt =====
-- backend/internal/feed/normalize/sanitize.go: the lists of tags and attributes, and the walk of
-- SanitizeHTML. html.Parse gives the tree; what is written is a list of pieces and, joined, a text.
use Prim.Native.String.{◌++◌ as ◌+++◌}
use afghanistan_news.Base.{
  ℕ, suc, String, Bool, true, not, ◌&&◌, ◌||◌, List, [], ◌∷◌, ◌++◌, str_eq, starts_with, ltb, any,
  if◌then◌else◌,
}

-- The tests on whole texts, and html.EscapeString.
pub record HtmlLib : Type 0 where
  pub lower : String → String
  pub escape : String → String
  pub is_safe_url : String → Bool

abbrev pub is_in : List String → String → Bool
is_in names name = any (λ n. str_eq n name) names

unfoldable pub allowed_tags : List String
allowed_tags =
    "p" ∷ "br" ∷ "strong" ∷ "b" ∷ "em" ∷ "i" ∷ "u" ∷ "ul" ∷ "ol" ∷ "li" ∷ "blockquote" ∷ "h1" ∷ "h2"
    ∷ "h3" ∷ "h4" ∷ "h5" ∷ "h6" ∷ "a" ∷ "img" ∷ "figure" ∷ "figcaption" ∷ "table" ∷ "thead"
    ∷ "tbody" ∷ "tr" ∷ "td" ∷ "th" ∷ "code" ∷ "pre" ∷ "span" ∷ "div" ∷ "hr" ∷ "small" ∷ "sub"
    ∷ "sup" ∷ "time" ∷ []

unfoldable pub dropped_tags : List String
dropped_tags =
    "script" ∷ "style" ∷ "iframe" ∷ "object" ∷ "embed" ∷ "form" ∷ "input" ∷ "button" ∷ "textarea"
    ∷ "select" ∷ "noscript" ∷ "svg" ∷ "math" ∷ "video" ∷ "audio" ∷ "source" ∷ "base" ∷ "meta"
    ∷ "link" ∷ "applet" ∷ "frame" ∷ "frameset" ∷ "template" ∷ []

unfoldable pub allowed_attributes : String → List String
allowed_attributes tag =
    if str_eq tag "a"
    then ("href" ∷ "title" ∷ "rel" ∷ [])
    else if str_eq tag "img"
    then ("src" ∷ "alt" ∷ "title" ∷ "width" ∷ "height" ∷ "loading" ∷ [])
    else if str_eq tag "time"
    then ("datetime" ∷ [])
    else if str_eq tag "td" || str_eq tag "th"
    then ("colspan" ∷ "rowspan" ∷ [])
    else []

abbrev pub common_attributes : List String
common_attributes = "dir" ∷ "lang" ∷ []

-- A node of the tree; `is_void` says that its atom is br, hr or img. Comments and the like are `other`.
mutual
  pub data Node : Type 0 where
    text : String → Node
    element : String → Bool → List (String × String) → Nodes → Node
    other : Node

  pub data Nodes : Type 0 where
    no_nodes : Nodes
    and_node : Node → Nodes → Nodes

pub record Attribute : Type 0 where
  pub key : String
  pub value : String

-- What is written: an escaped text, a tag with its attributes, or the end of a tag.
pub data Piece : Type 0 where
  plain : String → Piece
  open_tag : String → Bool → List Attribute → Piece
  close_tag : String → Piece

-- The tests of the loop over the attributes, `continue` being false.
unfoldable pub safe_value : HtmlLib → String → String → Bool
safe_value l key value =
    if str_eq key "href"
    then (l.is_safe_url value || starts_with value "#" || starts_with value "/")
      && not (starts_with value "/")
    else if str_eq key "src"
    then l.is_safe_url value
    else true

unfoldable pub is_listed : String → String → Bool
unfolding allowed_attributes
is_listed tag key = is_in (allowed_attributes tag) key || is_in common_attributes key

unfoldable pub keep_attribute : HtmlLib → String → String → String → Bool
unfolding safe_value is_listed
keep_attribute l tag key value =
    not (starts_with key "on" || starts_with key "xmlns")
    && (is_listed tag key && safe_value l key value)

unfoldable pub write_attributes : HtmlLib → String → List (String × String) → List Attribute
unfolding keep_attribute
write_attributes l tag [] = []
write_attributes l tag ((raw, value) ∷ rest) =
    let more = write_attributes l tag rest in
    if keep_attribute l tag (l.lower raw) value
    then record { key = l.lower raw; value = value } ∷ more
    else more

-- walk, which stops below a depth of 32.
unfoldable mutual
  unfolding write_attributes allowed_tags dropped_tags

  pub walk_html : HtmlLib → ℕ → Nodes → List Piece
  walk_html l depth no_nodes = []
  walk_html l depth (and_node n ns) = walk_node l depth n ++ walk_html l depth ns

  pub walk_node : HtmlLib → ℕ → Node → List Piece
  walk_node l depth (text t) = plain t ∷ []
  walk_node l depth other = []
  walk_node l depth (element raw is_void attributes children) =
      let name = l.lower raw in
      let inside =
        (let deeper = walk_html l (suc depth) children in
          if ltb 32 (suc depth) then [] else deeper) in
      if is_in dropped_tags name
      then []
      else if not (is_in allowed_tags name)
      then inside
      else open_tag name is_void (write_attributes l name attributes)
        ∷ (if is_void then [] else inside ++ (close_tag name ∷ []))

unfoldable pub sanitize_pieces : HtmlLib → Nodes → List Piece
unfolding walk_html
sanitize_pieces l doc = walk_html l 0 doc

-- The text of the pieces.
unfoldable pub write_attribute : HtmlLib → List Attribute → String
write_attribute l [] = ""
write_attribute l (a ∷ rest) =
    " " +++ a.key +++ "=\"" +++ l.escape a.value +++ "\"" +++ write_attribute l rest

unfoldable pub write_piece : HtmlLib → Piece → String
unfolding write_attribute
write_piece l (plain t) = l.escape t
write_piece l (open_tag name is_void attributes) =
    "<"
    +++ name
    +++ write_attribute l attributes
    +++ (if str_eq name "img" then " loading=\"lazy\"" else "")
    +++ ">"
write_piece l (close_tag name) = "</" +++ name +++ ">"

unfoldable pub sanitized_text : HtmlLib → List Piece → String
unfolding write_piece
sanitized_text l [] = ""
sanitized_text l (p ∷ ps) = write_piece l p +++ sanitized_text l ps
