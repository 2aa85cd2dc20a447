-- ===== src/Parser/EscapeLaws.antt =====
-- backend/internal/feed/parser/xmltree.go: what serialize writes for the attributes of a node.
use Prim.Native.Char.{Char, code}
use Prim.Native.String.{String, ◌++◌ as ◌+++◌}
use mathlib.Core.List.{append_assoc}
use text.Mathlib.TextLemmas
use afghanistan_news.Base.{
  ℕ, Option, none, some, List, [], ◌∷◌, ◌++◌, ◌≡◌, refl, ap, ◌∙◌, inl, inr, ◌==◌, ==_iff,
  Bool-cases, if◌then◌else◌,
}
use afghanistan_news.Base.Text.{codes}
use afghanistan_news.Api.Session.{bytes_eq}
use afghanistan_news.Parser.Read.{escape_attr}

-- A reader of HTML: the value of an attribute up to its closing quote, and what follows. A name
-- between & and ; is kept in `entity` until it ends.
abbrev entity_code : List ℕ → Option ℕ
entity_code name =
    if bytes_eq name (codes "amp")
    then some 38
    else if bytes_eq name (codes "quot")
    then some 34
    else if bytes_eq name (codes "lt")
    then some 60
    else if bytes_eq name (codes "gt")
    then some 62
    else none

abbrev push_code : Option ℕ → Option (List ℕ × List ℕ) → Option (List ℕ × List ℕ)
push_code (some c) (some (v, rest)) = some (c ∷ v, rest)
push_code (some c) none = none
push_code none r = none

abbrev none_yet : Option (List ℕ)
none_yet = none

pub read_value : Option (List ℕ) → List ℕ → Option (List ℕ × List ℕ)
read_value entity [] = none
read_value none (c ∷ s) =
    let started = read_value (some []) s in
    let further = push_code (some c) (read_value none s) in
    if c == 34 then some ([], s) else if c == 38 then started else further
read_value (some name) (c ∷ s) =
    let ended = push_code (entity_code name) (read_value none s) in
    let longer = read_value (some (name ++ (c ∷ []))) s in if c == 59 then ended else longer

codes-append : (s t : String) → codes (s +++ t) ≡ codes s ++ codes t
codes-append String.[] t = ap codes (TextLemmas.nil-append t)
codes-append (String.◌∷◌ c s) t =
    ap codes (TextLemmas.cons-append c s t) ∙ ap (◌∷◌ (code c)) (codes-append s t)

-- What one character is written as.
abbrev escaped : Char → String
escaped c =
    if code c == 38
    then "&amp;"
    else if code c == 34
    then "&quot;"
    else if code c == 60
    then "&lt;"
    else if code c == 62
    then "&gt;"
    else String.◌∷◌ c String.[]

read_escaped :
    (c : Char) (s : List ℕ)
    → read_value none (codes (escaped c) ++ s) ≡ push_code (some (code c)) (read_value none s)
unfolding read_value
read_escaped c s = elim (Bool-cases (code c == 38)) [
  | inl e ↦ rw (e, (==_iff (code c) 38).0 e) refl
  | inr n38 ↦ elim (Bool-cases (code c == 34)) [
    | inl e ↦ rw (n38, e, (==_iff (code c) 34).0 e) refl
    | inr n34 ↦ elim (Bool-cases (code c == 60)) [
      | inl e ↦ rw (n38, n34, e, (==_iff (code c) 60).0 e) refl
      | inr n60 ↦ elim (Bool-cases (code c == 62)) [
        | inl e ↦ rw (n38, n34, n60, e, (==_iff (code c) 62).0 e) refl
        | inr n62 ↦ rw (n38, n34, n60, n62) (rw (n38, n34) refl)
      ]
    ]
  ]
]

-- A value that is written into an attribute is read back whole, and the reader stops at the quote that
-- serialize wrote: no text of a feed gets out of its attribute.
pub escape_attr_read :
    (value : String) (rest : List ℕ)
    → read_value none (codes (escape_attr value) ++ (34 ∷ rest)) ≡ some (codes value, rest)
unfolding read_value escape_attr
escape_attr_read String.[] rest = refl
escape_attr_read (String.◌∷◌ c s) rest =
    ap (λ cs. read_value none (cs ++ (34 ∷ rest))) (codes-append (escaped c) (escape_attr s))
    ∙ ap (read_value none) (append_assoc (codes (escaped c)) (codes (escape_attr s)) (34 ∷ rest))
    ∙ read_escaped c (codes (escape_attr s) ++ (34 ∷ rest))
    ∙ ap (push_code (some (code c))) (escape_attr_read s rest)
