-- ===== src/Parser/FeedLaws.antt =====
-- backend/internal/feed/parser/parser.go: what every candidate of a feed has.
use mathlib.Core.Path.{subst}
use afghanistan_news.Base.{
  ℕ, true, false, ◌||◌, Option, none, some, List, [], ◌∷◌, String, ◌≡◌, ◌≢◌, ◌⊎◌, refl, inl, inr,
  length, All, str_eq, eq_iff, Bool-cases, arith, if◌then◌else◌,
}
use afghanistan_news.Base.Keyset.{All-append}
use afghanistan_news.Model.{Candidate}
use afghanistan_news.Text.Plain.{PlainLib, Address, is_blank, is_web_address, is_safe_external_url}
use afghanistan_news.Parser.Xml.{Token, XmlNode, parse_tree}
use afghanistan_news.Parser.Read.{document_root, child, name_of}
use afghanistan_news.Parser.Items.{item_fields, is_usable, if_some, candidate_from_item, from_items}
use afghanistan_news.Parser.Rss.{Result, parse_rss, parse_rdf}
use afghanistan_news.Parser.Atom.{entry_fields, candidate_from_entry, from_entries, parse_atom}
use afghanistan_news.Parser.Feed.{
  parse_unknown, choose, if_empty, by_dialect, empty_result, with_counts, warnings_of, parse,
}

-- A title that is more than blanks, and a link that net/url reads as one to a host by http or https.
pub record CanBeShown (l : PlainLib) (c : Candidate) : Type 0 where
  pub titled : l.trim_space c.title ≢ ""
  pub address : Address
  pub parsed : l.parse_url (l.trim_space c.link) ≡ some address
  pub by_http : (address.scheme ≡ "http") ⊎ (address.scheme ≡ "https")
  pub hosted : address.host ≢ ""

some-eq : (r r' : Result) → some r ≡ some r' → r ≡ r'
some-eq r r' e = cc

ne_of_blank : (s : String) → is_blank s ≡ false → s ≢ ""
ne_of_blank s h e = ground (arith, eq_iff s "")

scheme_lem :
    (s : String) → (str_eq s "http" || str_eq s "https") ≡ true → (s ≡ "http") ⊎ (s ≡ "https")
scheme_lem s h = elim (Bool-cases (str_eq s "http")) [
  | inl e ↦ inl ((eq_iff s "http").0 e)
  | inr n ↦ inr ((eq_iff s "https").0 (rw n at h))
]

safe_address :
    (o : Option Address)
    → is_web_address o ≡ true
    → (u : Address) × (o ≡ some u) × ((u.scheme ≡ "http") ⊎ (u.scheme ≡ "https")) × (u.host ≢ "")
safe_address none h = cc
safe_address (some u) h =
    (u, refl, scheme_lem u.scheme (ground arith), ne_of_blank u.host (ground arith))

is_usable-CanBeShown : (l : PlainLib) (c : Candidate) → is_usable l c ≡ true → CanBeShown l c
unfolding is_usable is_safe_external_url
is_usable-CanBeShown l c h =
    let safe = safe_address (l.parse_url (l.trim_space c.link)) (ground arith) in
    record {
      titled = ne_of_blank (l.trim_space c.title) (ground arith);
      address = safe.0;
      parsed = safe.1;
      by_http = safe.2;
      hosted = safe.3;
    }

All-if :
    (l : PlainLib) (c : Candidate) (cs : List Candidate)
    → All (CanBeShown l) cs
    → All (CanBeShown l) (if_some (if is_usable l c then some c else none) cs)
All-if l c cs h = elim (Bool-cases (is_usable l c)) [
  | inl usable ↦ rw usable (is_usable-CanBeShown l c usable, h)
  | inr useless ↦ rw useless h
]

from_items-All :
    (l : PlainLib) (now : ℕ) (language : String) (items : List XmlNode)
    → All (CanBeShown l) (from_items l now language items)
unfolding from_items candidate_from_item
from_items-All l now language [] = tt
from_items-All l now language (it ∷ items) =
    All-if l (item_fields l now language it) _ (from_items-All l now language items)

from_entries-All :
    (l : PlainLib) (now : ℕ) (language : String) (entries : List XmlNode)
    → All (CanBeShown l) (from_entries l now language entries)
unfolding from_entries candidate_from_entry
from_entries-All l now language [] = tt
from_entries-All l now language (en ∷ entries) =
    All-if l (entry_fields l now language en) _ (from_entries-All l now language entries)

abbrev Shown : PlainLib → Result → Type 0
Shown l r = All (CanBeShown l) r.candidates

rss-Shown :
    (l : PlainLib) (now : ℕ) (doc : XmlNode) (res : Result)
    → Shown l res
    → Shown l (parse_rss l now doc res)
unfolding parse_rss
rss-Shown l now doc res h = All-append (CanBeShown l) res.candidates _ h (from_items-All l now _ _)

rdf-Shown :
    (l : PlainLib) (now : ℕ) (doc : XmlNode) (res : Result)
    → Shown l res
    → Shown l (parse_rdf l now doc res)
unfolding parse_rdf
rdf-Shown l now doc res h = All-append (CanBeShown l) res.candidates _ h (from_items-All l now _ _)

atom-Shown :
    (l : PlainLib) (now : ℕ) (doc : XmlNode) (res : Result)
    → Shown l res
    → Shown l (parse_atom l now doc res)
unfolding parse_atom
atom-Shown l now doc res h =
    All-append (CanBeShown l) res.candidates _ h (from_entries-All l now _ _)

abbrev OptionShown : PlainLib → Option Result → Type 0
OptionShown l none = Unit {0}
OptionShown l (some r) = Shown l r

if_empty-Shown :
    (l : PlainLib) (cs : List Candidate) (r by_atom : Result)
    → Shown l r
    → Shown l by_atom
    → OptionShown l (if_empty cs r by_atom)
if_empty-Shown l [] r by_atom h k = k
if_empty-Shown l (c ∷ cs) r by_atom h k = h

choose-Shown :
    (l : PlainLib) (ch : Option XmlNode) (items : List XmlNode) (r by_atom : Result)
    → Shown l r
    → Shown l by_atom
    → OptionShown l (choose ch items r by_atom)
choose-Shown l (some ch) items r by_atom h k = h
choose-Shown l none [] r by_atom h k = tt
choose-Shown l none (it ∷ items) r by_atom h k = if_empty-Shown l r.candidates r by_atom h k

unknown-Shown :
    (l : PlainLib) (now : ℕ) (doc : XmlNode) (res : Result)
    → Shown l res
    → OptionShown l (parse_unknown l now doc res)
unfolding parse_unknown
unknown-Shown l now doc res h =
    let rss = rss-Shown l now doc res h in
    choose-Shown l (child l doc ("channel" ∷ [])) _ _ _ rss
      (atom-Shown l now doc (parse_rss l now doc res) rss)

by_dialect-Shown :
    (l : PlainLib) (now : ℕ) (doc : XmlNode) (res : Result)
    → Shown l res
    → OptionShown l (by_dialect l now doc res)
unfolding by_dialect
by_dialect-Shown l now doc res h = elim (Bool-cases (str_eq (l.lower (name_of doc)) "rss")) [
  | inl e ↦ rw e (rss-Shown l now doc res h)
  | inr not_rss ↦ elim (Bool-cases (str_eq (l.lower (name_of doc)) "rdf")) [
    | inl e ↦ rw (not_rss, e) (rdf-Shown l now doc res h)
    | inr not_rdf ↦ elim (Bool-cases (str_eq (l.lower (name_of doc)) "feed")) [
      | inl e ↦ rw (not_rss, not_rdf, e) (atom-Shown l now doc res h)
      | inr not_atom ↦ rw (not_rss, not_rdf, not_atom) (unknown-Shown l now doc res h)
    ]
  ]
]

counted_lem :
    (l : PlainLib) (o : Option Result) (r : Result)
    → OptionShown l o
    → (let answer : Option Result = elim o [ none ↦ none | some res ↦ some (with_counts res) ] in
        answer ≡ some r)
    → Shown l r × (r.meta.item_count ≡ length r.candidates)
unfolding with_counts
counted_lem l none r h e = cc
counted_lem l (some res) r h e = (
  subst (Shown l) (some-eq (with_counts res) r e) h,
  subst (λ (x : Result). x.meta.item_count ≡ length x.candidates) (some-eq (with_counts res) r e)
      refl,
)

-- Whatever the dialect of the document and however broken it is, every candidate of the result has a
-- title that is not blank and a link by http or https to a named host, and the stated number of items
-- is that of the candidates.
pub parse-CanBeShown :
    (l : PlainLib) (now : ℕ) (ts : List Token) (ended : Option String) (r : Result)
    → parse l now ts ended ≡ some r
    → All (CanBeShown l) r.candidates × (r.meta.item_count ≡ length r.candidates)
unfolding parse
parse-CanBeShown l now ts ended r e =
    counted_lem l
      (by_dialect l now (document_root (parse_tree ts ended).0)
        (empty_result (warnings_of (parse_tree ts ended).1)))
      r
      (by_dialect-Shown l now (document_root (parse_tree ts ended).0)
        (empty_result (warnings_of (parse_tree ts ended).1)) tt)
      e
