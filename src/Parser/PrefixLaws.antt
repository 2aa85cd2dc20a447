-- ===== src/Parser/PrefixLaws.antt =====
-- backend/internal/feed/parser/xmltree.go: what parseTree read before an error stays in its tree.
use mathlib.Core.Path.{subst}
use Prim.Native.String.{◌++◌ as ◌+++◌}
use text.Mathlib.TextLemmas
use afghanistan_news.Base.{
  suc, ◌+◌, String, Option, some, List, [], ◌∷◌, ◌++◌, ◌≡◌, refl, sym, ap, ◌∙◌, ltb, length, Bool,
  true, false, if◌then◌else◌,
}
use afghanistan_news.Parser.Xml.{
  XmlAttributes, XmlNode, xml_node, XmlNodes, no_nodes, and_node, append_node, Token, start_element,
  char_data, end_element, other_token, XmlError, node_limit, depth_limit, text_limit, max_depth,
  max_nodes, max_text_bytes, byte_length, Frame, Building, closed, with_child, close_all,
  opened_frame, start_building, Step, next, stop, read_token, read_tokens, pop_frame, parse_tree,
}
use afghanistan_news.Parser.XmlLaws.{parse_tree_root}

-- The second tree is the first one read further: nothing of the first is lost or moved, and what is
-- new stands after it. Only the last of the first tree's elements on each level can have grown.
mutual
  pub data Grows : XmlNode → XmlNode → Type 0 where
    grows :
        {name : String} {attributes : XmlAttributes} {text text' : String} {ns ms : XmlNodes}
        (more : String)
        → text' ≡ text +++ more
        → AllGrow ns ms
        → Grows (xml_node name attributes text ns) (xml_node name attributes text' ms)

  pub data AllGrow : XmlNodes → XmlNodes → Type 0 where
    added : {ms : XmlNodes} → AllGrow no_nodes ms
    last_grows :
        {n m : XmlNode} {ms : XmlNodes} → Grows n m → AllGrow (and_node n no_nodes) (and_node m ms)
    kept :
        {n : XmlNode} {ns ms : XmlNodes} → AllGrow ns ms → AllGrow (and_node n ns) (and_node n ms)

pub AllGrow-refl : (ns : XmlNodes) → AllGrow ns ns
AllGrow-refl no_nodes = added
AllGrow-refl (and_node n ns) = kept (AllGrow-refl ns)

pub Grows-refl : (n : XmlNode) → Grows n n
Grows-refl (xml_node name attributes text children) =
    grows "" (sym (TextLemmas.append-nil text)) (AllGrow-refl children)

AllGrow-none : {ns : XmlNodes} → AllGrow ns no_nodes → (ms : XmlNodes) → AllGrow ns ms
AllGrow-none added ms = added

mutual
  Grows-trans : {a b c : XmlNode} → Grows a b → Grows b c → Grows a c
  Grows-trans (grows {text} more e h) (grows more' e' h') =
      grows (more +++ more')
        (e' ∙ ap (λ t. t +++ more') e ∙ TextLemmas.append_assoc text more more')
        (AllGrow-trans h h')

  AllGrow-trans : {ks ns ms : XmlNodes} → AllGrow ks ns → AllGrow ns ms → AllGrow ks ms
  AllGrow-trans added h = added
  AllGrow-trans (last_grows g) (last_grows g') = last_grows (Grows-trans g g')
  AllGrow-trans (last_grows g) (kept h) = last_grows g
  AllGrow-trans (kept h) (kept h') = kept (AllGrow-trans h h')
  AllGrow-trans (kept added) (last_grows g) = last_grows g

append_last :
    (ns : XmlNodes) {n m : XmlNode} → Grows n m → AllGrow (append_node ns n) (append_node ns m)
append_last no_nodes g = last_grows g
append_last (and_node k ns) g = kept (append_last ns g)

append_added : (ns : XmlNodes) (n : XmlNode) → AllGrow ns (append_node ns n)
append_added no_nodes n = added
append_added (and_node k ns) n = kept (append_added ns n)

same_text :
    {ns ms : XmlNodes} (name : String) (attributes : XmlAttributes) (text : String)
    → AllGrow ns ms
    → Grows (xml_node name attributes text ns) (xml_node name attributes text ms)
same_text name attributes text h = grows "" (sym (TextLemmas.append-nil text)) h

close_all-Grows :
    (f f' : Frame) (gs : List Frame)
    → Grows (closed f) (closed f')
    → Grows (close_all f gs) (close_all f' gs)
unfolding close_all
close_all-Grows f f' [] h = h
close_all-Grows f f' (g ∷ gs) h =
    close_all-Grows (with_child g (closed f)) (with_child g (closed f')) gs
      (same_text g.name g.attributes g.text (append_last g.children h))

abbrev tree_at : Building → XmlNode
tree_at b = close_all b.top b.below

abbrev StepGrows : Building → Step → Type 0
StepGrows b (next b') = Grows (tree_at b) (tree_at b')
StepGrows b (stop e) = Unit {0}

pop-Grows :
    (b : Building) (gs : List Frame) → b.below ≡ gs → Grows (tree_at b) (tree_at (pop_frame b gs))
unfolding close_all
pop-Grows b [] e = Grows-refl (tree_at b)
pop-Grows b (g ∷ gs) e =
    subst (λ fs. Grows (close_all b.top fs) (tree_at (pop_frame b (g ∷ gs)))) (sym e) (Grows-refl _)

StepGrows-if :
    (b : Building) (t : Bool) (e : XmlError) (s : Step)
    → StepGrows b s
    → StepGrows b (if t then stop e else s)
StepGrows-if b true e s h = tt
StepGrows-if b false e s h = h

read_token-StepGrows : (t : Token) (b : Building) → StepGrows b (read_token t b)
unfolding read_token close_all
read_token-StepGrows (start_element name attributes) b =
    StepGrows-if b (ltb max_nodes (suc b.nodes)) node_limit _ (
      StepGrows-if b (ltb max_depth (suc (length b.below))) depth_limit (next _) (
        close_all-Grows b.top (with_child b.top (closed (opened_frame name attributes))) b.below
          (same_text b.top.name b.top.attributes b.top.text (append_added b.top.children _))))
read_token-StepGrows (char_data t) b =
    StepGrows-if b (ltb max_text_bytes (b.text_bytes + byte_length t)) text_limit (next _) (
      close_all-Grows b.top (record (b.top) { text = b.top.text +++ t }) b.below
        (grows t refl (AllGrow-refl b.top.children)))
read_token-StepGrows end_element b = pop-Grows b b.below refl
read_token-StepGrows other_token b = Grows-refl (tree_at b)

after_step :
    (us : List Token) (b : Building) (s : Step)
    → StepGrows b s
    → ((c : Building) → Grows (tree_at c) (tree_at (read_tokens us c).0))
    → Grows (tree_at b) (
        let r : Building × Option XmlError = elim s [
          | stop e ↦ (b, some e)
          | next b' ↦ read_tokens us b'
        ] in
        tree_at r.0)
after_step us b (stop e) h go = Grows-refl (tree_at b)
after_step us b (next c) h go = Grows-trans h (go c)

read_tokens-Grows :
    (us : List Token) (b : Building) → Grows (tree_at b) (tree_at (read_tokens us b).0)
unfolding read_tokens
read_tokens-Grows [] b = Grows-refl (tree_at b)
read_tokens-Grows (t ∷ us) b =
    after_step us b (read_token t b) (read_token-StepGrows t b) (read_tokens-Grows us)

further :
    (t : Token) (ts us : List Token) (b : Building) (s : Step)
    → ((c : Building) → Grows (tree_at (read_tokens ts c).0) (tree_at (read_tokens (ts ++ us) c).0))
    → let r : Building × Option XmlError = elim s [
      | stop e ↦ (b, some e)
      | next b' ↦ read_tokens ts b'
    ] in
      let r' : Building × Option XmlError = elim s [
        | stop e ↦ (b, some e)
        | next b' ↦ read_tokens (ts ++ us) b'
      ] in
      Grows (tree_at r.0) (tree_at r'.0)
further t ts us b (stop e) go = Grows-refl (tree_at b)
further t ts us b (next c) go = go c

read_tokens_further :
    (ts us : List Token) (b : Building)
    → Grows (tree_at (read_tokens ts b).0) (tree_at (read_tokens (ts ++ us) b).0)
unfolding read_tokens
read_tokens_further [] us b = unfold read_tokens in read_tokens-Grows us b
read_tokens_further (t ∷ ts) us b = further t ts us b (read_token t b) (read_tokens_further ts us)

-- A document that breaks off, whatever the error, gives a tree that the whole document extends:
-- elements keep their names, attributes and places, only the last element on a level can still get
-- text and children, and new elements come after the old ones.
pub parse_tree-Grows :
    (ts us : List Token) (broken ended : Option String)
    → Grows (parse_tree ts broken).0 (parse_tree (ts ++ us) ended).0
parse_tree-Grows ts us broken ended =
    subst (λ n. Grows n (parse_tree (ts ++ us) ended).0) (sym (parse_tree_root ts broken))
      (subst (Grows (tree_at (read_tokens ts start_building).0))
        (sym (parse_tree_root (ts ++ us) ended)) (read_tokens_further ts us start_building))
