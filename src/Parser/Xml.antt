-- ===== src/Parser/Xml.antt =====
-- backend/internal/feed/parser/xmltree.go: parseTree. The decoder of encoding/xml is a parameter: the
-- tokens that it gives, and the error that ends them if it is not io.EOF. Names are local names.
use Prim.Native.Char.{code}
use Prim.Native.String.{String, [], ◌∷◌, ◌++◌ as ◌+++◌}
use afghanistan_news.Base.{
  ℕ, suc, ◌+◌, Option, none, some, List, [], ◌∷◌, ltb, length, if◌then◌else◌,
}

abbrev pub XmlAttributes : Type 0
XmlAttributes = List (String × String)

mutual
  pub data XmlNode : Type 0 where
    xml_node : String → XmlAttributes → String → XmlNodes → XmlNode

  pub data XmlNodes : Type 0 where
    no_nodes : XmlNodes
    and_node : XmlNode → XmlNodes → XmlNodes

abbrev pub append_node : XmlNodes → XmlNode → XmlNodes
append_node no_nodes n = and_node n no_nodes
append_node (and_node m ms) n = and_node m (append_node ms n)

pub data Token : Type 0 where
  start_element : String → XmlAttributes → Token
  char_data : String → Token
  end_element : Token
  other_token : Token

pub data XmlError : Type 0 where
  node_limit depth_limit text_limit empty_document : XmlError
  syntax_error : String → XmlError

abbrev pub max_depth : ℕ
max_depth = 64

abbrev pub max_nodes : ℕ
max_nodes = 60000

abbrev pub max_text_bytes : ℕ
max_text_bytes = 6291456

-- len of a text, in UTF-8.
unfoldable pub byte_length : String → ℕ
byte_length String.[] = 0
byte_length (String.◌∷◌ c s) =
    (if ltb (code c) 128
      then 1
      else if ltb (code c) 2048
      then 2
      else if ltb (code c) 65536
      then 3
      else 4)
    + byte_length s

-- An element that is still open: its own fields, with the children that are closed.
pub record Frame : Type 0 where
  pub name : String
  pub attributes : XmlAttributes
  pub text : String
  pub children : XmlNodes

-- The stack is `top` and the frames below it. The source links a child to its parent when the child
-- starts, here it is linked when the child ends: a parent is not written while its child is open.
pub record Building : Type 0 where
  pub nodes : ℕ
  pub text_bytes : ℕ
  pub top : Frame
  pub below : List Frame

abbrev pub closed : Frame → XmlNode
closed f = xml_node f.name f.attributes f.text f.children

abbrev pub with_child : Frame → XmlNode → Frame
with_child f n = record f { children = append_node f.children n }

-- The root, with every open element linked to its parent.
unfoldable pub close_all : Frame → List Frame → XmlNode
close_all f [] = closed f
close_all f (g ∷ gs) = close_all (with_child g (closed f)) gs

abbrev pub opened_frame : String → XmlAttributes → Frame
opened_frame name attributes = record {
  name = name;
  attributes = attributes;
  text = "";
  children = no_nodes;
}

abbrev pub start_building : Building
start_building = record { nodes = 0; text_bytes = 0; top = opened_frame "#document" []; below = [] }

pub data Step : Type 0 where
  next : Building → Step
  stop : XmlError → Step

abbrev pub pop_frame : Building → List Frame → Building
pop_frame b [] = b
pop_frame b (g ∷ gs) = record b { top = with_child g (closed b.top); below = gs }

-- The switch over one token.
unfoldable pub read_token : Token → Building → Step
read_token (start_element name attributes) b =
    if ltb max_nodes (suc b.nodes)
    then stop node_limit
    else if ltb max_depth (suc (length b.below))
    then stop depth_limit
    else next (record b {
      nodes = suc b.nodes;
      top = opened_frame name attributes;
      below = b.top ∷ b.below;
    })
read_token (char_data t) b =
    let total = b.text_bytes + byte_length t in
    if ltb max_text_bytes total
    then stop text_limit
    else next (record b { text_bytes = total; top = record (b.top) { text = b.top.text +++ t } })
read_token end_element b = next (pop_frame b b.below)
read_token other_token b = next b

-- The loop: what stands when it ends, and the limit that ended it.
unfoldable pub read_tokens : List Token → Building → Building × Option XmlError
unfolding read_token
read_tokens [] b = (b, none)
read_tokens (t ∷ ts) b = elim (read_token t b) [
  | stop e ↦ (b, some e)
  | next b' ↦ read_tokens ts b'
]

abbrev pub children_of : XmlNode → XmlNodes
children_of (xml_node name attributes text children) = children

-- The end of parseTree where no limit was met.
unfoldable pub at_end : XmlNode → Option String → XmlNode × Option XmlError
at_end root ended = elim (children_of root) [
  | and_node n ns ↦ (root, none)
  | no_nodes ↦ (root, elim ended [ some e ↦ some (syntax_error e) | none ↦ some empty_document ])
]

unfoldable pub parse_tree : List Token → Option String → XmlNode × Option XmlError
unfolding read_tokens close_all at_end
parse_tree ts ended =
    let r = read_tokens ts start_building in
    let root = close_all r.0.top r.0.below in
    elim (r.1) [ some e ↦ (root, some e) | none ↦ at_end root ended ]
