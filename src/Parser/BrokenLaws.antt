-- ===== src/Parser/BrokenLaws.antt =====
-- backend/internal/feed/parser: the candidates of an RSS document that breaks off.
use mathlib.Core.Path.{subst}
use afghanistan_news.Base.{
  ℕ, suc, ◌≤◌, String, Bool, true, not, Option, none, some, List, [], ◌∷◌, ◌++◌, map, ◌≡◌, refl,
  sym, ap, ◌∙◌, inl, inr, find, length, str_eq, starts_with, Bool-cases, arith,
}
use afghanistan_news.Model.{Candidate}
use afghanistan_news.Text.Plain.{PlainLib}
use afghanistan_news.Parser.Xml.{XmlNode, Token, parse_tree, children_of}
use afghanistan_news.Parser.PrefixLaws.{Grows, grows, AllGrow, parse_tree-Grows}
use afghanistan_news.Parser.Read.{
  name_of, listed, or_empty_node, document_root, is_named, child, children_matches,
}
use afghanistan_news.Parser.Items.{
  item_fields, is_usable, candidate_from_item, if_some, from_items, child_text,
}
use afghanistan_news.Parser.Rss.{Result, Warning, parse_rss}
use afghanistan_news.Parser.Feed.{by_dialect, empty_result, with_counts, warnings_of, parse}
use afghanistan_news.Parser.AgreeLaws.{
  Agree, AsksName, Grows-name, find-AllGrow, is_named-AsksName, none_no, select-AllGrow,
}

-- A candidate, but for the language of its feed.
abbrev pub without_language : Candidate → Candidate
without_language c = record c { language = "" }

abbrev pub stripped : List Candidate → List Candidate
stripped cs = map without_language cs

item_stripped :
    (l : PlainLib) (now : ℕ) (language : String) (it : XmlNode) (cs : List Candidate)
    → stripped (if_some (candidate_from_item l now language it) cs)
      ≡ if_some (candidate_from_item l now "" it) (stripped cs)
unfolding candidate_from_item is_usable item_fields
item_stripped l now language it cs = elim (Bool-cases (is_usable l (item_fields l now "" it))) [
  | inl usable ↦ rw usable refl
  | inr useless ↦ rw useless refl
]

from_items-stripped :
    (l : PlainLib) (now : ℕ) (language : String) (items : List XmlNode)
    → stripped (from_items l now language items) ≡ from_items l now "" items
unfolding from_items
from_items-stripped l now language [] = refl
from_items-stripped l now language (it ∷ items) =
    item_stripped l now language it (from_items l now language items)
    ∙ ap (if_some (candidate_from_item l now "" it)) (from_items-stripped l now language items)

if_some-append :
    (o : Option Candidate) (xs ys : List Candidate) → if_some o (xs ++ ys) ≡ if_some o xs ++ ys
if_some-append none xs ys = refl
if_some-append (some c) xs ys = refl

pub from_items-append :
    (l : PlainLib) (now : ℕ) (language : String) (xs ys : List XmlNode)
    → from_items l now language (xs ++ ys)
      ≡ from_items l now language xs ++ from_items l now language ys
unfolding from_items
from_items-append l now language [] ys = refl
from_items-append l now language (x ∷ xs) ys =
    ap (if_some (candidate_from_item l now language x)) (from_items-append l now language xs ys)
    ∙ if_some-append (candidate_from_item l now language x) _ _

length-if_some :
    (o : Option Candidate) (cs : List Candidate) → length (if_some o cs) ≤ suc (length cs)
length-if_some none cs = omega arith
length-if_some (some c) cs = omega arith

length-from_items_le :
    (l : PlainLib) (now : ℕ) (language : String) (items : List XmlNode)
    → length (from_items l now language items) ≤ length items
unfolding from_items
length-from_items_le l now language [] = omega arith
length-from_items_le l now language (it ∷ items) = omega (
  arith,
  length-if_some (candidate_from_item l now language it) (from_items l now language items),
  length-from_items_le l now language items,
)

from_items-Agree :
    (l : PlainLib) (now : ℕ) {xs ys : List XmlNode}
    → Agree xs ys
    → Agree (from_items l now "" xs) (from_items l now "" ys)
from_items-Agree l now a = record {
  shared = from_items l now "" a.shared;
  rest = from_items l now "" a.rest;
  rest' = from_items l now "" a.rest';
  first_lem = ap (from_items l now "") a.first_lem ∙ from_items-append l now "" a.shared a.rest;
  second_lem = ap (from_items l now "") a.second_lem ∙ from_items-append l now "" a.shared a.rest';
  at_most_one = omega (arith, length-from_items_le l now "" a.rest, a.at_most_one);
}

children-AllGrow : (n m : XmlNode) → Grows n m → AllGrow (children_of n) (children_of m)
children-AllGrow n m (grows more e h) = h

abbrev not_special : XmlNode → Bool
not_special c = not (starts_with (name_of c) "#")

not_special-AsksName : AsksName not_special
not_special-AsksName n m g = ap (λ name. not (starts_with name "#")) (Grows-name n m g)

abbrev channel : List String
channel = "channel" ∷ []

found_root :
    (l : PlainLib) (ch : XmlNode) (o : Option XmlNode)
    → child l (or_empty_node o) channel ≡ some ch
    → (doc : XmlNode) × (o ≡ some doc)
unfolding child
found_root l ch none e = absurd (none_no e)
found_root l ch (some doc) e = (doc, refl)

-- The document element with a channel is there in the whole document too, and its channel.
document_root-Grows :
    (l : PlainLib) (n m ch : XmlNode)
    → Grows n m
    → child l (document_root n) channel ≡ some ch
    → Grows (document_root n) (document_root m)
unfolding document_root
document_root-Grows l n m ch g e =
    let found = found_root l ch (find not_special (listed (children_of n))) e in
    let whole =
      find-AllGrow not_special found.0 not_special-AsksName (children-AllGrow n m g) found.1 in
    subst (λ d. Grows d (document_root m)) (sym (ap or_empty_node found.1))
      (subst (Grows found.0) (sym (ap or_empty_node whole.1)) whole.2)

child-Grows :
    (l : PlainLib) (names : List String) (n m c : XmlNode)
    → Grows n m
    → child l n names ≡ some c
    → (c' : XmlNode) × (child l m names ≡ some c') × Grows c c'
unfolding child
child-Grows l names n m c g e =
    find-AllGrow (is_named l names) c (is_named-AsksName l names) (children-AllGrow n m g) e

matches-Agree :
    (l : PlainLib) (names : List String) (n m : XmlNode)
    → Grows n m
    → Agree (children_matches l n names) (children_matches l m names)
unfolding children_matches
matches-Agree l names n m g =
    select-AllGrow (is_named l names) (is_named-AsksName l names) (children-AllGrow n m g)

rss_stripped :
    (l : PlainLib) (now : ℕ) (doc ch : XmlNode) (ws : List Warning)
    → child l doc channel ≡ some ch
    → stripped (parse_rss l now doc (empty_result ws)).candidates
      ≡ from_items l now "" (children_matches l ch ("item" ∷ []))
unfolding parse_rss
rss_stripped l now doc ch ws e = rw e (from_items-stripped l now (child_text l ch "language") _)

by_dialect_rss :
    (l : PlainLib) (now : ℕ) (doc : XmlNode) (res : Result)
    → str_eq (l.lower (name_of doc)) "rss" ≡ true
    → by_dialect l now doc res ≡ some (parse_rss l now doc res)
unfolding by_dialect
by_dialect_rss l now doc res e = rw e refl

Agree-same : {xs xs' ys ys' : List Candidate} → xs' ≡ xs → ys' ≡ ys → Agree xs ys → Agree xs' ys'
Agree-same e e' a = record {
  shared = a.shared;
  rest = a.rest;
  rest' = a.rest';
  first_lem = e ∙ a.first_lem;
  second_lem = e' ∙ a.second_lem;
  at_most_one = a.at_most_one;
}

-- The result for an RSS document.
rss_result :
    (l : PlainLib) (now : ℕ) (ts : List Token) (ended : Option String)
    → str_eq (l.lower (name_of (document_root (parse_tree ts ended).0))) "rss" ≡ true
    → parse l now ts ended
      ≡ some (
          with_counts (
            parse_rss l now
              (document_root (parse_tree ts ended).0)
              (empty_result (warnings_of (parse_tree ts ended).1))))
unfolding parse
rss_result l now ts ended e = λ i.
    elim (by_dialect_rss l now (document_root (parse_tree ts ended).0)
      (empty_result (warnings_of (parse_tree ts ended).1)) e i) [
        | none ↦ none
        | some res ↦ some (with_counts res)
      ]

-- An RSS document that breaks off after its channel has begun gives the candidates of the whole
-- document: all but the last of them stand first in those of the whole, in their order, and only the
-- language of the feed, which may come later in the document, can differ.
pub broken_feed-Agree :
    (l : PlainLib) (now : ℕ) (ts us : List Token) (broken ended : Option String) (ch : XmlNode)
    → str_eq (l.lower (name_of (document_root (parse_tree ts broken).0))) "rss" ≡ true
    → child l (document_root (parse_tree ts broken).0) ("channel" ∷ []) ≡ some ch
    → (r : Result) × (r' : Result) × (parse l now ts broken ≡ some r)
      × (parse l now (ts ++ us) ended ≡ some r')
      × Agree (stripped r.candidates) (stripped r'.candidates)
unfolding with_counts
broken_feed-Agree l now ts us broken ended ch rss has_channel =
    let part = (parse_tree ts broken).0 in
    let whole = (parse_tree (ts ++ us) ended).0 in
    let grown =
      document_root-Grows l part whole ch (parse_tree-Grows ts us broken ended) has_channel in
    let rss' = ap (λ name. str_eq (l.lower name) "rss") (sym (Grows-name _ _ grown)) ∙ rss in
    let ch' = child-Grows l channel _ _ ch grown has_channel in
    let same = from_items-Agree l now (matches-Agree l ("item" ∷ []) ch ch'.0 ch'.2) in
    (
      _,
      _,
      rss_result l now ts broken rss,
      rss_result l now (ts ++ us) ended rss',
      Agree-same (rss_stripped l now (document_root part) ch _ has_channel)
          (rss_stripped l now (document_root whole) ch'.0 _ ch'.1) same,
    )
