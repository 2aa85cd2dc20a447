-- ===== src/Parser/XmlLaws.antt =====
-- backend/internal/feed/parser/xmltree.go: the limits of parseTree, and what it keeps of a document
-- that breaks off.
use Prim.Native.String.{[], ◌∷◌}
use mathlib.Core.Path.{subst}
use afghanistan_news.Base.{
  ℕ, suc, ◌+◌, ◌≤◌, String, Option, none, some, List, [], ◌∷◌, ◌≡◌, refl, sym, ap, length, arith,
  ltb, Bool-cases, inl, inr,
}
use afghanistan_news.Parser.Xml.{
  XmlAttributes, XmlError, XmlNode, xml_node, no_nodes, and_node, Token, start_element, char_data,
  end_element, other_token, max_depth, max_nodes, max_text_bytes, byte_length, Frame, Building,
  closed, with_child, close_all, start_building, Step, next, stop, read_token, read_tokens,
  parse_tree, at_end, pop_frame,
}
use afghanistan_news.Parser.Sizes.{
  byte_length-append, node_bytes, node_count, node_height, nodes_bytes, nodes_bytes-append_node,
  nodes_count, nodes_count-append_node, nodes_height, nodes_height-append_node,
}

-- The open elements below the top, with all that they hold.
frames_count : List Frame → ℕ
frames_count [] = 0
frames_count (f ∷ fs) = suc (nodes_count f.children + frames_count fs)

frames_bytes : List Frame → ℕ
frames_bytes [] = 0
frames_bytes (f ∷ fs) = byte_length f.text + nodes_bytes f.children + frames_bytes fs

-- Every closed child of an open element fits below it.
abbrev FramesFit : List Frame → Type 0
FramesFit [] = Unit {0}
FramesFit (f ∷ fs) = (nodes_height f.children + length fs ≤ max_depth) × FramesFit fs

record IsBounded (b : Building) : Type 0 where
  counted : nodes_count b.top.children + frames_count b.below ≡ b.nodes
  within_nodes : b.nodes ≤ max_nodes
  measured :
      byte_length b.top.text + nodes_bytes b.top.children + frames_bytes b.below ≡ b.text_bytes
  within_text : b.text_bytes ≤ max_text_bytes
  within_depth : length b.below ≤ max_depth
  fitting : FramesFit (b.top ∷ b.below)

-- What one token leaves: the state that stands when the loop ends is bounded too.
abbrev AfterStep : Step → Type 0
AfterStep (next b) = IsBounded b
AfterStep (stop e) = Unit {0}

FramesFit-below : (b : Building) (gs : List Frame) → b.below ≡ gs → IsBounded b → FramesFit gs
FramesFit-below b gs e h = subst FramesFit e h.fitting.1

pop-IsBounded :
    (b : Building) (gs : List Frame) → b.below ≡ gs → IsBounded b → IsBounded (pop_frame b gs)
unfolding frames_count frames_bytes node_count node_bytes node_height
pop-IsBounded b [] e h = h
pop-IsBounded b (g ∷ gs) e h =
    let under = FramesFit-below b (g ∷ gs) e h in
    record {
      counted =
          omega (
            arith,
            nodes_count-append_node g.children (closed b.top),
            h.counted,
            ap frames_count e,
          );
      within_nodes = h.within_nodes;
      measured =
          omega (
            arith,
            nodes_bytes-append_node g.children (closed b.top),
            h.measured,
            ap frames_bytes e,
          );
      within_text = h.within_text;
      within_depth = omega (arith, h.within_depth, ap length e);
      fitting = (
        omega (
          arith,
          nodes_height-append_node g.children (closed b.top),
          h.fitting.0,
          ap length e,
          under.0,
        ),
        under.1,
      );
    }

start_element-AfterStep :
    (b : Building) (name : String) (attributes : XmlAttributes)
    → IsBounded b
    → AfterStep (read_token (start_element name attributes) b)
unfolding read_token frames_count frames_bytes nodes_count nodes_bytes nodes_height byte_length
start_element-AfterStep b name attributes h = elim (Bool-cases (ltb max_nodes (suc b.nodes))) [
  | inl many ↦ rw many tt
  | inr few ↦ elim (Bool-cases (ltb max_depth (suc (length b.below)))) [
    | inl deep ↦ rw (few, deep) tt
    | inr flat ↦
        rw (few, flat)
          (record {
            counted = omega (arith, h.counted);
            within_nodes = ground arith;
            measured = omega (arith, h.measured);
            within_text = h.within_text;
            within_depth = ground arith;
            fitting = (ground arith, h.fitting);
          })
  ]
]

char_data-AfterStep :
    (b : Building) (t : String) → IsBounded b → AfterStep (read_token (char_data t) b)
unfolding read_token frames_count frames_bytes
char_data-AfterStep b t h = elim (Bool-cases (ltb max_text_bytes (b.text_bytes + byte_length t))) [
  | inl long ↦ rw long tt
  | inr short ↦ rw short (record {
    counted = h.counted;
    within_nodes = h.within_nodes;
    measured = omega (arith, byte_length-append b.top.text t, h.measured);
    within_text = ground arith;
    within_depth = h.within_depth;
    fitting = h.fitting;
  })
]

read_token-AfterStep : (t : Token) (b : Building) → IsBounded b → AfterStep (read_token t b)
read_token-AfterStep (start_element name attributes) b h =
    start_element-AfterStep b name attributes h
read_token-AfterStep (char_data t) b h = char_data-AfterStep b t h
read_token-AfterStep end_element b h = unfold read_token in pop-IsBounded b b.below refl h
read_token-AfterStep other_token b h = unfold read_token in h

after_step :
    (ts : List Token) (b : Building) (s : Step)
    → IsBounded b
    → AfterStep s
    → ((c : Building) → IsBounded c → IsBounded (read_tokens ts c).0)
    → IsBounded (
        let r : Building × Option XmlError = elim s [
          | stop e ↦ (b, some e)
          | next b' ↦ read_tokens ts b'
        ] in
        r.0)
after_step ts b (stop e) h k go = h
after_step ts b (next c) h k go = go c k

read_tokens-IsBounded :
    (ts : List Token) (b : Building) → IsBounded b → IsBounded (read_tokens ts b).0
unfolding read_tokens
read_tokens-IsBounded [] b h = h
read_tokens-IsBounded (t ∷ ts) b h =
    after_step ts b (read_token t b) h (read_token-AfterStep t b h) (read_tokens-IsBounded ts)

-- Closing the open elements loses none of them.
close_all_sizes :
    (f : Frame) (fs : List Frame)
    → (node_count (close_all f fs) ≡ suc (nodes_count f.children + frames_count fs))
      × (node_bytes (close_all f fs)
          ≡ byte_length f.text + nodes_bytes f.children + frames_bytes fs)
unfolding close_all node_count node_bytes frames_count frames_bytes
close_all_sizes f [] = (omega arith, omega arith)
close_all_sizes f (g ∷ gs) =
    let h = close_all_sizes (with_child g (closed f)) gs in
    (
      omega (arith, h.0, nodes_count-append_node g.children (closed f)),
      omega (arith, h.1, nodes_bytes-append_node g.children (closed f)),
    )

close_all_height :
    (f : Frame) (fs : List Frame)
    → FramesFit (f ∷ fs)
    → node_height (close_all f fs) ≤ suc max_depth
unfolding close_all node_height
close_all_height f [] h = omega (arith, h.0)
close_all_height f (g ∷ gs) h =
    close_all_height (with_child g (closed f)) gs
      (omega (arith, h.0, h.1.0, nodes_height-append_node g.children (closed f)), h.1.1)

pub record IsLimited (n : XmlNode) : Type 0 where
  pub few : node_count n ≤ suc max_nodes
  pub shallow : node_height n ≤ suc max_depth
  pub short : node_bytes n ≤ max_text_bytes

close_all-IsLimited : (b : Building) → IsBounded b → IsLimited (close_all b.top b.below)
close_all-IsLimited b h =
    let sizes = close_all_sizes b.top b.below in
    record {
      few = omega (arith, sizes.0, h.counted, h.within_nodes);
      shallow = close_all_height b.top b.below h.fitting;
      short = omega (arith, sizes.1, h.measured, h.within_text);
    }

at_end-root : (root : XmlNode) (ended : Option String) → (at_end root ended).0 ≡ root
unfolding at_end
at_end-root (xml_node name attributes text no_nodes) ended = refl
at_end-root (xml_node name attributes text (and_node n ns)) ended = refl

root_lem :
    (r : Option XmlError) (root : XmlNode) (ended : Option String)
    → let answer : XmlNode × Option XmlError = elim r [
      | some e ↦ (root, some e)
      | none ↦ at_end root ended
    ] in
      answer.0 ≡ root
root_lem none root ended = at_end-root root ended
root_lem (some e) root ended = refl

-- The tree that parseTree returns, whatever ended it.
pub parse_tree_root :
    (ts : List Token) (ended : Option String)
    → let b = (read_tokens ts start_building).0 in (parse_tree ts ended).0 ≡ close_all b.top b.below
unfolding parse_tree
parse_tree_root ts ended = root_lem (read_tokens ts start_building).1 _ ended

start-IsBounded : IsBounded start_building
unfolding frames_count frames_bytes nodes_count nodes_bytes nodes_height byte_length
start-IsBounded = record {
  counted = omega arith;
  within_nodes = omega arith;
  measured = omega arith;
  within_text = omega arith;
  within_depth = omega arith;
  fitting = (omega arith, tt);
}

-- For all tokens that the decoder may give, the tree that is returned, with or without an error, has
-- at most 60,000 elements and 64 levels of them below the document, and at most 6 MiB of text.
pub parse_tree-IsLimited :
    (ts : List Token) (ended : Option String) → IsLimited (parse_tree ts ended).0
parse_tree-IsLimited ts ended =
    subst IsLimited (sym (parse_tree_root ts ended))
      (close_all-IsLimited _ (read_tokens-IsBounded ts start_building start-IsBounded))
