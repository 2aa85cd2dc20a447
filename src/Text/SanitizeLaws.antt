-- ===== src/Text/SanitizeLaws.antt =====
-- backend/internal/feed/normalize/sanitize.go: what SanitizeHTML lets through.
use afghanistan_news.Base.{
  ℕ, suc, String, Bool, true, false, not, ◌&&◌, ◌||◌, List, [], ◌∷◌, ◌++◌, ◌≡◌, refl, inl, inr,
  str_eq, eq_iff, starts_with, ltb, All, Bool-cases, if◌then◌else◌,
}
use mathlib.Core.Path.{subst}
use afghanistan_news.Base.Keyset.{All-append}
use afghanistan_news.Text.Sanitize.{
  HtmlLib, is_in, allowed_tags, dropped_tags, allowed_attributes, common_attributes, Node, text,
  element, other, Nodes, no_nodes, and_node, Attribute, Piece, plain, open_tag, close_tag,
  safe_value, is_listed, keep_attribute, write_attributes, walk_html, walk_node, sanitize_pieces,
}

-- An attribute that runs no code and loads nothing but from a safe address: no event handler, listed
-- for its tag or for all, a link to a safe URL or within the page, an image of a safe URL.
pub record IsSafeAttribute (l : HtmlLib) (tag : String) (a : Attribute) : Type 0 where
  pub no_handler : starts_with a.key "on" ≡ false
  pub listed : (is_in (allowed_attributes tag) a.key || is_in common_attributes a.key) ≡ true
  pub safe_link :
      str_eq a.key "href" ≡ true → (l.is_safe_url a.value || starts_with a.value "#") ≡ true
  pub safe_source : str_eq a.key "src" ≡ true → l.is_safe_url a.value ≡ true

abbrev pub IsSafe : HtmlLib → Piece → Type 0
IsSafe l (plain t) = Unit
IsSafe l (open_tag name is_void attributes) =
    (is_in allowed_tags name ≡ true)
    × (is_in dropped_tags name ≡ false)
    × All (IsSafeAttribute l name) attributes
IsSafe l (close_tag name) = (is_in allowed_tags name ≡ true) × (is_in dropped_tags name ≡ false)

and_parts : (a b : Bool) → (a && b) ≡ true → (a ≡ true) × (b ≡ true)
and_parts true b h = (refl, h)
and_parts false b h = cc

neither : (a b : Bool) → not (a || b) ≡ true → a ≡ false
neither true b h = cc
neither false b h = refl

link_lem :
    (safe page rooted : Bool)
    → ((safe || page || rooted) && not rooted) ≡ true
    → (safe || page) ≡ true
link_lem true page rooted h = refl
link_lem false true rooted h = refl
link_lem false false true h = cc
link_lem false false false h = cc

safe_value-link :
    (l : HtmlLib) (key value : String)
    → safe_value l key value ≡ true
    → str_eq key "href" ≡ true
    → (l.is_safe_url value || starts_with value "#") ≡ true
unfolding safe_value
safe_value-link l key value h e =
    link_lem (l.is_safe_url value) (starts_with value "#") (starts_with value "/") (rw e at h)

safe_value-source :
    (l : HtmlLib) (key value : String)
    → safe_value l key value ≡ true
    → str_eq key "src" ≡ true
    → l.is_safe_url value ≡ true
unfolding safe_value
safe_value-source l key value h e =
    let same : key ≡ "src" = (eq_iff key "src").0 e in
    subst (λ k. safe_value l k value ≡ true) same h

keep_attribute-IsSafeAttribute :
    (l : HtmlLib) (tag key value : String)
    → keep_attribute l tag key value ≡ true
    → IsSafeAttribute l tag (record { key = key; value = value })
unfolding keep_attribute is_listed
keep_attribute-IsSafeAttribute l tag key value h =
    let first = and_parts _ _ h in
    let second = and_parts (is_listed tag key) (safe_value l key value) first.1 in
    record {
      no_handler = neither _ _ first.0;
      listed = second.0;
      safe_link = λ e. safe_value-link l key value second.1 e;
      safe_source = λ e. safe_value-source l key value second.1 e;
    }

write_attributes-All :
    (l : HtmlLib) (tag : String) (attributes : List (String × String))
    → All (IsSafeAttribute l tag) (write_attributes l tag attributes)
unfolding write_attributes
write_attributes-All l tag [] = tt
write_attributes-All l tag ((raw, value) ∷ rest) =
    elim (Bool-cases (keep_attribute l tag (l.lower raw) value)) [
      | inl e ↦ rw e (
        keep_attribute-IsSafeAttribute l tag (l.lower raw) value e,
        write_attributes-All l tag rest,
      )
      | inr e ↦ rw e (write_attributes-All l tag rest)
    ]

too_deep :
    (l : HtmlLib) (deep : Bool) (inside : List Piece)
    → All (IsSafe l) inside
    → All (IsSafe l) (if deep then [] else inside)
too_deep l true inside h = tt
too_deep l false inside h = h

closed-IsSafe :
    (l : HtmlLib) (name : String) (is_void : Bool) (inside : List Piece)
    → is_in allowed_tags name ≡ true
    → is_in dropped_tags name ≡ false
    → All (IsSafe l) inside
    → All (IsSafe l) (if is_void then [] else inside ++ (close_tag name ∷ []))
closed-IsSafe l name true inside a e h = tt
closed-IsSafe l name false inside a e h =
    All-append (IsSafe l) inside (close_tag name ∷ []) h ((a, e), tt)

-- What is written of an element, by the tests of its name and of the depth.
element-IsSafe :
    (l : HtmlLib) (name : String) (is_void : Bool) (attributes : List (String × String))
    (inside : List Piece)
    → All (IsSafe l) inside
    → All (IsSafe l) (
        if is_in dropped_tags name
        then []
        else if not (is_in allowed_tags name)
        then inside
        else open_tag name is_void (write_attributes l name attributes)
          ∷ (if is_void then [] else inside ++ (close_tag name ∷ [])))
element-IsSafe l name is_void attributes inside h = elim (Bool-cases (is_in dropped_tags name)) [
  | inl e ↦ rw e tt
  | inr e ↦ elim (Bool-cases (is_in allowed_tags name)) [
    | inr a ↦ rw (e, a) h
    | inl a ↦
        rw (e, a)
          (
            (a, e, write_attributes-All l name attributes),
            closed-IsSafe l name is_void inside a e h,
          )
  ]
]

mutual
  unfolding walk_html

  walk_html-IsSafe : (l : HtmlLib) (depth : ℕ) (ns : Nodes) → All (IsSafe l) (walk_html l depth ns)
  walk_html-IsSafe l depth no_nodes = tt
  walk_html-IsSafe l depth (and_node n ns) =
      All-append (IsSafe l) _ _ (walk_node-IsSafe l depth n) (walk_html-IsSafe l depth ns)

  walk_node-IsSafe : (l : HtmlLib) (depth : ℕ) (n : Node) → All (IsSafe l) (walk_node l depth n)
  walk_node-IsSafe l depth (text t) = (tt, tt)
  walk_node-IsSafe l depth other = tt
  walk_node-IsSafe l depth (element raw is_void attributes children) =
      element-IsSafe l (l.lower raw) is_void attributes _
        (too_deep l (ltb 32 (suc depth)) _ (walk_html-IsSafe l (suc depth) children))

-- Every tag that SanitizeHTML writes is on the list of the allowed and not on that of the dropped ones,
-- and every attribute of it is harmless: it is listed, is no event handler, and an address in it is a
-- safe one or stays on the page.
pub sanitize_pieces-IsSafe : (l : HtmlLib) (doc : Nodes) → All (IsSafe l) (sanitize_pieces l doc)
unfolding sanitize_pieces
sanitize_pieces-IsSafe l doc = walk_html-IsSafe l 0 doc
