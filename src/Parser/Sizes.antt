-- ===== src/Parser/Sizes.antt =====
-- backend/internal/feed/parser/xmltree.go: the elements, levels and bytes of a tree.
use Prim.Native.String.{◌++◌ as ◌+++◌}
use text.Mathlib.TextLemmas
use afghanistan_news.Base.{ℕ, suc, ◌+◌, max, String, ◌≡◌, ap, ◌∙◌, arith}
use afghanistan_news.Parser.Xml.{
  XmlNode, xml_node, XmlNodes, no_nodes, and_node, append_node, byte_length,
}

-- The elements of a list of trees, all levels together.
unfoldable mutual
  pub node_count : XmlNode → ℕ
  node_count (xml_node name attributes text children) = suc (nodes_count children)

  pub nodes_count : XmlNodes → ℕ
  nodes_count no_nodes = 0
  nodes_count (and_node n ns) = node_count n + nodes_count ns

unfoldable mutual
  pub node_height : XmlNode → ℕ
  node_height (xml_node name attributes text children) = suc (nodes_height children)

  pub nodes_height : XmlNodes → ℕ
  nodes_height no_nodes = 0
  nodes_height (and_node n ns) = max (node_height n) (nodes_height ns)

-- The bytes of the texts of a tree.
unfoldable mutual
  unfolding byte_length

  pub node_bytes : XmlNode → ℕ
  node_bytes (xml_node name attributes text children) = byte_length text + nodes_bytes children

  pub nodes_bytes : XmlNodes → ℕ
  nodes_bytes no_nodes = 0
  nodes_bytes (and_node n ns) = node_bytes n + nodes_bytes ns

pub nodes_count-append_node :
    (ns : XmlNodes) (n : XmlNode) → nodes_count (append_node ns n) ≡ nodes_count ns + node_count n
unfolding nodes_count
nodes_count-append_node no_nodes n = omega arith
nodes_count-append_node (and_node m ns) n = omega (arith, nodes_count-append_node ns n)

pub nodes_bytes-append_node :
    (ns : XmlNodes) (n : XmlNode) → nodes_bytes (append_node ns n) ≡ nodes_bytes ns + node_bytes n
unfolding nodes_bytes
nodes_bytes-append_node no_nodes n = omega arith
nodes_bytes-append_node (and_node m ns) n = omega (arith, nodes_bytes-append_node ns n)

pub nodes_height-append_node :
    (ns : XmlNodes) (n : XmlNode)
    → nodes_height (append_node ns n) ≡ max (nodes_height ns) (node_height n)
unfolding nodes_height
nodes_height-append_node no_nodes n = omega arith
nodes_height-append_node (and_node m ns) n = omega (arith, nodes_height-append_node ns n)

pub byte_length-append : (s t : String) → byte_length (s +++ t) ≡ byte_length s + byte_length t
unfolding byte_length
byte_length-append String.[] t = ap byte_length (TextLemmas.nil-append t) ∙ omega arith
byte_length-append (String.◌∷◌ c s) t =
    ap byte_length (TextLemmas.cons-append c s t) ∙ omega (arith, byte_length-append s t)
