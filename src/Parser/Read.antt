-- ===== src/Parser/Read.antt =====
-- backend/internal/feed/parser: the helpers of xmltree.go and parser.go that read a tree. A node that
-- is nil in the source is `none`. The functions on texts are those of PlainLib.
use Prim.Native.Char.{code}
use Prim.Native.String.{String, [], ◌∷◌, ◌++◌ as ◌+++◌}
use afghanistan_news.Base.{
  Bool, not, ◌||◌, Option, none, some, List, [], ◌∷◌, ◌++◌, ◌==◌, str_eq, starts_with, any, find,
  select, if◌then◌else◌,
}
use afghanistan_news.Parser.Xml.{
  XmlAttributes, XmlNode, xml_node, XmlNodes, no_nodes, and_node, children_of,
}
use afghanistan_news.Text.Plain.{PlainLib, is_blank}

abbrev pub name_of : XmlNode → String
name_of (xml_node name attributes text children) = name

abbrev pub text_of : XmlNode → String
text_of (xml_node name attributes text children) = text

abbrev pub attributes_of : XmlNode → XmlAttributes
attributes_of (xml_node name attributes text children) = attributes

abbrev pub listed : XmlNodes → List XmlNode
listed no_nodes = []
listed (and_node n ns) = n ∷ listed ns

abbrev pub or_empty_node : Option XmlNode → XmlNode
or_empty_node (some c) = c
or_empty_node none = xml_node "" [] "" no_nodes

-- documentRoot
unfoldable pub document_root : XmlNode → XmlNode
document_root root =
    or_empty_node (find (λ c. not (starts_with (name_of c) "#")) (listed (children_of root)))

abbrev pub is_named : PlainLib → List String → XmlNode → Bool
is_named l names n = any (l.equal_fold (name_of n)) names

unfoldable pub child : PlainLib → XmlNode → List String → Option XmlNode
child l n names = find (is_named l names) (listed (children_of n))

unfoldable pub children_matches : PlainLib → XmlNode → List String → List XmlNode
children_matches l n names = select (is_named l names) (listed (children_of n))

-- descendants, in the order of the document
unfoldable pub descendants_in : PlainLib → List String → XmlNodes → List XmlNode
descendants_in l names no_nodes = []
descendants_in l names (and_node (xml_node name attributes text children) ns) =
    (if is_named l names (xml_node name attributes text children)
      then xml_node name attributes text children ∷ []
      else [])
    ++ (descendants_in l names children ++ descendants_in l names ns)

unfoldable pub descendants : PlainLib → XmlNode → List String → List XmlNode
unfolding descendants_in
descendants l n names = descendants_in l names (children_of n)

-- attr
unfoldable pub attr : PlainLib → Option XmlNode → List String → String
attr l none names = ""
attr l (some n) names =
    elim (find (λ (a : String × String). any (l.equal_fold a.0) names) (attributes_of n)) [
      | some (key, value) ↦ l.trim_space value
      | none ↦ ""
    ]

-- The texts of a tree, joined.
unfoldable mutual
  pub all_text : XmlNode → String
  all_text (xml_node name attributes text children) = text +++ all_texts children

  pub all_texts : XmlNodes → String
  all_texts no_nodes = ""
  all_texts (and_node n ns) = all_text n +++ all_texts ns

unfoldable pub inner_text : PlainLib → Option XmlNode → String
unfolding all_text
inner_text l none = ""
inner_text l (some n) = l.trim_space (all_text n)

unfoldable pub escape_attr : String → String
escape_attr String.[] = String.[]
escape_attr (String.◌∷◌ c s) =
    (if code c == 38
      then "&amp;"
      else if code c == 34
      then "&quot;"
      else if code c == 60
      then "&lt;"
      else if code c == 62
      then "&gt;"
      else String.◌∷◌ c String.[])
    +++ escape_attr s

unfoldable pub void_elements : List String
void_elements = "br" ∷ "img" ∷ "hr" ∷ "meta" ∷ "link" ∷ "input" ∷ []

unfoldable pub serialize_attributes : XmlAttributes → String
unfolding escape_attr
serialize_attributes [] = ""
serialize_attributes ((key, value) ∷ rest) =
    (if is_blank key || starts_with key "xmlns"
      then ""
      else " " +++ (key +++ ("=\"" +++ (escape_attr value +++ "\""))))
    +++ serialize_attributes rest

unfoldable mutual
  unfolding serialize_attributes void_elements

  pub serialize : PlainLib → XmlNode → String
  serialize l (xml_node name attributes text children) =
      let start = "<" +++ (name +++ (serialize_attributes attributes +++ ">")) in
      let inside = text +++ serialize_all l children in
      if any (λ v. str_eq v (l.lower name)) void_elements
      then start
      else start +++ (inside +++ ("</" +++ (name +++ ">")))

  pub serialize_all : PlainLib → XmlNodes → String
  serialize_all l no_nodes = ""
  serialize_all l (and_node n ns) = serialize l n +++ serialize_all l ns

unfoldable pub inner_html : PlainLib → Option XmlNode → String
unfolding serialize_all
inner_html l none = ""
inner_html l (some n) =
    if is_blank (serialize_all l (children_of n))
    then l.trim_space (text_of n)
    else l.trim_space (serialize_all l (children_of n))

unfoldable pub raw_text : PlainLib → Option XmlNode → String
unfolding inner_html
raw_text l none = ""
raw_text l (some n) = elim (children_of n) [
  | no_nodes ↦ l.trim_space (text_of n)
  | and_node c cs ↦ inner_html l (some n)
]

-- firstNode, firstText and firstNonEmpty
unfoldable pub first_node : PlainLib → XmlNode → List String → Option XmlNode
unfolding child
first_node l n [] = none
first_node l n (name ∷ names) = elim (child l n (name ∷ [])) [
  | some c ↦ some c
  | none ↦ first_node l n names
]

unfoldable pub first_text : PlainLib → XmlNode → List String → String
unfolding child inner_text
first_text l n [] = ""
first_text l n (name ∷ names) =
    let t = inner_text l (child l n (name ∷ [])) in
    let rest = first_text l n names in if is_blank t then rest else t

unfoldable pub first_non_empty : PlainLib → List String → String
first_non_empty l [] = ""
first_non_empty l (v ∷ vs) =
    let rest = first_non_empty l vs in if is_blank (l.trim_space v) then rest else l.trim_space v
