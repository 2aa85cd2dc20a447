-- ===== src/Text/NestingLaws.antt =====
-- backend/internal/feed/normalize/sanitize.go: the tags that SanitizeHTML writes are nested.
use afghanistan_news.Base.{
  ℕ, suc, String, Bool, true, false, not, Option, none, some, List, [], ◌∷◌, ◌++◌, ◌≡◌, refl, sym,
  ap, ◌∙◌, inl, inr, str_eq, eq_refl, ltb, Bool-cases, if◌then◌else◌,
}
use mathlib.Core.List.{append_assoc, append-nil}
use afghanistan_news.Text.Sanitize.{
  HtmlLib, is_in, allowed_tags, dropped_tags, Node, text, element, other, Nodes, no_nodes, and_node,
  Attribute, Piece, plain, open_tag, close_tag, write_attributes, walk_html, walk_node,
  sanitize_pieces,
}

-- A reader of the pieces with the tags that are open: a tag must end before those around it do.
pub closes : List String → List Piece → Option (List String)
closes stack [] = some stack
closes stack (plain t ∷ ps) = closes stack ps
closes stack (open_tag name true attributes ∷ ps) = closes stack ps
closes stack (open_tag name false attributes ∷ ps) = closes (name ∷ stack) ps
closes [] (close_tag name ∷ ps) = none
closes (top ∷ stack) (close_tag name ∷ ps) =
    let rest = closes stack ps in if str_eq top name then rest else none

-- Pieces that leave the open tags as they found them.
abbrev Neutral : List Piece → Type 0
Neutral ps =
    (stack : List String) (rest : List Piece) → closes stack (ps ++ rest) ≡ closes stack rest

Neutral-append : (ps qs : List Piece) → Neutral ps → Neutral qs → Neutral (ps ++ qs)
Neutral-append ps qs h k stack rest =
    ap (closes stack) (append_assoc ps qs rest) ∙ h stack (qs ++ rest) ∙ k stack rest

Neutral-if :
    (deep : Bool) (inside : List Piece) → Neutral inside → Neutral (if deep then [] else inside)
Neutral-if true inside h stack rest = refl
Neutral-if false inside h stack rest = h stack rest

Neutral-one :
    (name : String) (is_void : Bool) (attributes : List Attribute) (inside : List Piece)
    → Neutral inside
    → Neutral (
        open_tag name is_void attributes
        ∷ (if is_void then [] else inside ++ (close_tag name ∷ [])))
unfolding closes
Neutral-one name true attributes inside h stack rest = refl
Neutral-one name false attributes inside h stack rest =
    ap (closes (name ∷ stack)) (append_assoc inside (close_tag name ∷ []) rest)
    ∙ h (name ∷ stack) (close_tag name ∷ rest)
    ∙ rw (eq_refl name) refl

element-Neutral :
    (l : HtmlLib) (name : String) (is_void : Bool) (attributes : List Attribute)
    (inside : List Piece)
    → Neutral inside
    → Neutral (
        if is_in dropped_tags name
        then []
        else if not (is_in allowed_tags name)
        then inside
        else open_tag name is_void attributes
          ∷ (if is_void then [] else inside ++ (close_tag name ∷ [])))
element-Neutral l name is_void attributes inside h stack rest =
    elim (Bool-cases (is_in dropped_tags name)) [
      | inl e ↦ rw e refl
      | inr e ↦ elim (Bool-cases (is_in allowed_tags name)) [
        | inr a ↦ rw (e, a) (h stack rest)
        | inl a ↦ rw (e, a) (Neutral-one name is_void attributes inside h stack rest)
      ]
    ]

mutual
  unfolding walk_html closes

  walk_html-Neutral : (l : HtmlLib) (depth : ℕ) (ns : Nodes) → Neutral (walk_html l depth ns)
  walk_html-Neutral l depth no_nodes = λ stack rest. refl
  walk_html-Neutral l depth (and_node n ns) =
      Neutral-append (walk_node l depth n) (walk_html l depth ns) (walk_node-Neutral l depth n)
        (walk_html-Neutral l depth ns)

  walk_node-Neutral : (l : HtmlLib) (depth : ℕ) (n : Node) → Neutral (walk_node l depth n)
  walk_node-Neutral l depth (text t) = λ stack rest. refl
  walk_node-Neutral l depth other = λ stack rest. refl
  walk_node-Neutral l depth (element raw is_void attributes children) =
      element-Neutral l (l.lower raw) is_void (write_attributes l (l.lower raw) attributes)
        (if ltb 32 (suc depth) then [] else walk_html l (suc depth) children)
        (Neutral-if (ltb 32 (suc depth)) (walk_html l (suc depth) children)
          (walk_html-Neutral l (suc depth) children))

-- The tags of the walk's output are nested: read from the start with no tag open, each end belongs to
-- the tag opened last, and none is left open. (A result of more than 60,000 characters is cut later.)
pub sanitize_pieces_nested :
    (l : HtmlLib) (doc : Nodes) → closes [] (sanitize_pieces l doc) ≡ some []
unfolding sanitize_pieces closes
sanitize_pieces_nested l doc =
    ap (closes []) (sym (append-nil (sanitize_pieces l doc))) ∙ walk_html-Neutral l 0 doc [] []
