-- ===== src/Parser/NestedLaws.antt =====
-- backend/internal/feed/parser/xmltree.go: the tree of a document whose elements nest.
use Prim.Native.String.{◌++◌ as ◌+++◌}
use text.Mathlib.TextLemmas
use mathlib.Core.List.{append_assoc, append-nil}
use afghanistan_news.Base.{
  ℕ, zero, suc, ◌+◌, ◌≤◌, max, String, false, none, some, List, [], ◌∷◌, ◌++◌, ◌≡◌, refl, sym, ap,
  ◌∙◌, ltb, length, arith, Option,
}
use afghanistan_news.Parser.Xml.{
  XmlAttributes, XmlNode, xml_node, XmlNodes, no_nodes, and_node, append_node, Token, start_element,
  char_data, end_element, other_token, max_depth, max_nodes, max_text_bytes, byte_length, Frame,
  Building, opened_frame, next, stop, read_token, XmlError, syntax_error, empty_document,
  read_tokens, parse_tree, at_end, close_all, start_building, pop_frame,
}

-- The inside of an element: texts, comments and elements in any order.
pub data Markup : Type 0 where
  nothing : Markup
  run_of : String → Markup → Markup
  comment : Markup → Markup
  element : String → XmlAttributes → Markup → Markup → Markup

unfoldable pub tokens_of : Markup → List Token
tokens_of nothing = []
tokens_of (run_of t m) = char_data t ∷ tokens_of m
tokens_of (comment m) = other_token ∷ tokens_of m
tokens_of (element name attributes inside m) =
    start_element name attributes ∷ (tokens_of inside ++ (end_element ∷ tokens_of m))

-- The texts that stand directly inside, joined.
unfoldable pub text_in : Markup → String
text_in nothing = ""
text_in (run_of t m) = t +++ text_in m
text_in (comment m) = text_in m
text_in (element name attributes inside m) = text_in m

unfoldable pub nodes_in : Markup → XmlNodes
unfolding text_in
nodes_in nothing = no_nodes
nodes_in (run_of t m) = nodes_in m
nodes_in (comment m) = nodes_in m
nodes_in (element name attributes inside m) =
    and_node (xml_node name attributes (text_in inside) (nodes_in inside)) (nodes_in m)

unfoldable pub elements : Markup → ℕ
elements nothing = 0
elements (run_of t m) = elements m
elements (comment m) = elements m
elements (element name attributes inside m) = suc (elements inside + elements m)

unfoldable pub height : Markup → ℕ
height nothing = 0
height (run_of t m) = height m
height (comment m) = height m
height (element name attributes inside m) = max (suc (height inside)) (height m)

unfoldable pub bytes : Markup → ℕ
unfolding byte_length
bytes nothing = 0
bytes (run_of t m) = byte_length t + bytes m
bytes (comment m) = bytes m
bytes (element name attributes inside m) = bytes inside + bytes m

abbrev append_nodes : XmlNodes → XmlNodes → XmlNodes
append_nodes no_nodes ms = ms
append_nodes (and_node n ns) ms = and_node n (append_nodes ns ms)

append_node_then :
    (ns ms : XmlNodes) (n : XmlNode)
    → append_nodes (append_node ns n) ms ≡ append_nodes ns (and_node n ms)
append_node_then no_nodes ms n = refl
append_node_then (and_node m ns) ms n = ap (and_node m) (append_node_then ns ms n)

append_nodes-none : (ns : XmlNodes) → append_nodes ns no_nodes ≡ ns
append_nodes-none no_nodes = refl
append_nodes-none (and_node m ns) = ap (and_node m) (append_nodes-none ns)

le→ltb_false : (a b : ℕ) → b ≤ a → ltb a b ≡ false
le→ltb_false a b h = ground arith

abbrev frame : String → XmlAttributes → String → XmlNodes → Frame
frame name attributes text children = record {
  name = name;
  attributes = attributes;
  text = text;
  children = children;
}

abbrev building : ℕ → ℕ → Frame → List Frame → Building
building n k f gs = record { nodes = n; text_bytes = k; top = f; below = gs }

-- Two starts of the loop with equal parts.
same_start :
    {n n' k k' : ℕ} {text text' : String} {children children' : XmlNodes} (name : String)
    (attributes : XmlAttributes) (gs : List Frame) (ts : List Token)
    → n ≡ n'
    → k ≡ k'
    → text ≡ text'
    → children ≡ children'
    → read_tokens ts (building n k (frame name attributes text children) gs)
      ≡ read_tokens ts (building n' k' (frame name attributes text' children') gs)
same_start name attributes gs ts en ek et ec =
    λ i. read_tokens ts (building (en i) (ek i) (frame name attributes (et i) (ec i)) gs)

read_tokens-next :
    (t : Token) (ts : List Token) (b b' : Building)
    → read_token t b ≡ next b'
    → read_tokens (t ∷ ts) b ≡ read_tokens ts b'
unfolding read_tokens
read_tokens-next t ts b b' e = λ i. elim (e i) [ stop x ↦ (b, some x) | next c ↦ read_tokens ts c ]

char_data_next :
    (n k : ℕ) (f : Frame) (gs : List Frame) (t : String)
    → k + byte_length t ≤ max_text_bytes
    → read_token (char_data t) (building n k f gs)
      ≡ next (building n (k + byte_length t) (record f { text = f.text +++ t }) gs)
unfolding read_token
char_data_next n k f gs t h = rw (le→ltb_false max_text_bytes (k + byte_length t) h) refl

start_element_next :
    (n k : ℕ) (f : Frame) (gs : List Frame) (name : String) (attributes : XmlAttributes)
    → suc n ≤ max_nodes
    → suc (length gs) ≤ max_depth
    → read_token (start_element name attributes) (building n k f gs)
      ≡ next (building (suc n) k (opened_frame name attributes) (f ∷ gs))
unfolding read_token
start_element_next n k f gs name attributes h d =
    rw (le→ltb_false max_nodes (suc n) h, le→ltb_false max_depth (suc (length gs)) d) refl

other_token_next : (b : Building) → read_token other_token b ≡ next b
unfolding read_token
other_token_next b = refl

end_element_next : (b : Building) → read_token end_element b ≡ next (pop_frame b b.below)
unfolding read_token
end_element_next b = refl

-- Within the limits, the loop adds the nested part of a document to the element on top.
pub read_tokens-nested :
    (m : Markup) (n k : ℕ) (name : String) (attributes : XmlAttributes) (text : String)
    (children : XmlNodes) (gs : List Frame) (ts : List Token)
    → n + elements m ≤ max_nodes
    → length gs + height m ≤ max_depth
    → k + bytes m ≤ max_text_bytes
    → read_tokens (tokens_of m ++ ts) (building n k (frame name attributes text children) gs)
      ≡ read_tokens ts (
          building
            (n + elements m)
            (k + bytes m)
            (frame name attributes (text +++ text_in m) (append_nodes children (nodes_in m)))
            gs)
unfolding tokens_of text_in nodes_in elements height bytes
read_tokens-nested nothing n k name attributes text children gs ts hn hd hk =
    same_start name attributes gs ts (omega arith) (omega arith) (sym (TextLemmas.append-nil text))
      (sym (append_nodes-none children))
read_tokens-nested (comment m) n k name attributes text children gs ts hn hd hk =
    read_tokens-next other_token (tokens_of m ++ ts) _ _ (other_token_next _)
    ∙ read_tokens-nested m n k name attributes text children gs ts hn hd hk
read_tokens-nested (run_of t m) n k name attributes text children gs ts hn hd hk =
    read_tokens-next (char_data t) (tokens_of m ++ ts) _ _
      (char_data_next n k (frame name attributes text children) gs t (omega arith))
    ∙ read_tokens-nested m n (k + byte_length t) name attributes (text +++ t) children gs ts hn hd
        (omega arith)
    ∙ same_start name attributes gs ts refl (omega arith)
        (TextLemmas.append_assoc text t (text_in m)) refl
read_tokens-nested (element name' attributes' inside m) n k name attributes text children gs ts hn
      hd hk =
    let outer = frame name attributes text children in
    let inner = xml_node name' attributes' (text_in inside) (nodes_in inside) in
    read_tokens-next (start_element name' attributes')
      ((tokens_of inside ++ (end_element ∷ tokens_of m)) ++ ts) _ _
      (start_element_next n k outer gs name' attributes' (omega arith) (omega arith))
    ∙ ap (λ us. read_tokens us (building (suc n) k (opened_frame name' attributes') (outer ∷ gs)))
        (append_assoc (tokens_of inside) (end_element ∷ tokens_of m) ts)
    ∙ read_tokens-nested inside (suc n) k name' attributes' "" no_nodes (outer ∷ gs)
        (end_element ∷ (tokens_of m ++ ts)) (omega arith) (omega arith) (omega arith)
    ∙ read_tokens-next end_element (tokens_of m ++ ts) _ _ (end_element_next _)
    ∙ same_start name attributes gs (tokens_of m ++ ts) refl refl refl (
        ap (λ t. append_node children (xml_node name' attributes' t (nodes_in inside)))
          (TextLemmas.nil-append (text_in inside)))
    ∙ read_tokens-nested m (suc n + elements inside) (k + bytes inside) name attributes text
        (append_node children inner) gs ts (omega arith) (omega arith) (omega arith)
    ∙ same_start name attributes gs ts (omega arith) (omega arith) refl
        (append_node_then children (nodes_in m) inner)

parse_tree_end :
    (m : Markup) (ended : Option String)
    → elements m ≤ max_nodes
    → height m ≤ max_depth
    → bytes m ≤ max_text_bytes
    → parse_tree (tokens_of m) ended
      ≡ at_end (xml_node "#document" [] (text_in m) (nodes_in m)) ended
unfolding parse_tree close_all read_tokens
parse_tree_end m ended hn hd hk =
    let loop =
      read_tokens-nested m 0 0 "#document" [] "" no_nodes [] [] (omega arith) (omega arith)
        (omega arith) in
    let whole =
      ap (λ ts. read_tokens ts start_building) (sym (append-nil (tokens_of m)))
      ∙ loop
      ∙ same_start "#document" [] [] [] refl refl (TextLemmas.nil-append (text_in m)) refl in
    λ i. elim ((whole i).1) [
      | some e ↦ (close_all (whole i).0.top (whole i).0.below, some e)
      | none ↦ at_end (close_all (whole i).0.top (whole i).0.below) ended
    ]

-- The error of a document, by its number of elements and by what ended it.
abbrev pub error_of : ℕ → Option String → Option XmlError
error_of zero none = some empty_document
error_of zero (some e) = some (syntax_error e)
error_of (suc n) ended = none

at_end-error :
    (m : Markup) (t : String) (ended : Option String)
    → at_end (xml_node "#document" [] t (nodes_in m)) ended
      ≡ (xml_node "#document" [] t (nodes_in m), error_of (elements m) ended)
unfolding at_end nodes_in elements
at_end-error nothing t none = refl
at_end-error nothing t (some e) = refl
at_end-error (run_of u m) t ended = at_end-error m t ended
at_end-error (comment m) t ended = at_end-error m t ended
at_end-error (element name attributes inside m) t ended = refl

-- Within the limits, the tree of a document whose elements nest has the elements of the document in
-- their order, each with its attributes, the texts directly inside it joined, and the elements inside
-- it. An error is reported exactly for a document without elements: that of the decoder if there is one,
-- and that it is empty otherwise.
pub parse_tree-nested :
    (m : Markup) (ended : Option String)
    → elements m ≤ max_nodes
    → height m ≤ max_depth
    → bytes m ≤ max_text_bytes
    → parse_tree (tokens_of m) ended
      ≡ (xml_node "#document" [] (text_in m) (nodes_in m), error_of (elements m) ended)
parse_tree-nested m ended hn hd hk =
    parse_tree_end m ended hn hd hk ∙ at_end-error m (text_in m) ended
