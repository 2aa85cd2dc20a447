-- ===== src/Parser/AgreeLaws.antt =====
-- backend/internal/feed/parser: what the readers of a tree find in a tree that grew.
use mathlib.Core.Path.{subst}
use afghanistan_news.Base.{
  ◌≤◌, String, Bool, none, some, List, [], ◌∷◌, ◌++◌, ◌≡◌, refl, sym, ap, ◌∙◌, inl, inr, find,
  select, length, any, Bool-cases, arith, if◌then◌else◌,
}
use afghanistan_news.Text.Plain.{PlainLib}
use afghanistan_news.Parser.Xml.{XmlNode, XmlNodes}
use afghanistan_news.Parser.PrefixLaws.{Grows, grows, AllGrow, added, last_grows, kept, Grows-refl}
use afghanistan_news.Parser.Read.{name_of, listed, is_named}

-- A test that asks for the name only.
abbrev pub AsksName : (XmlNode → Bool) → Type 0
AsksName p = (n m : XmlNode) → Grows n m → p n ≡ p m

pub Grows-name : (n m : XmlNode) → Grows n m → name_of n ≡ name_of m
Grows-name n m (grows more e h) = refl

pub is_named-AsksName : (l : PlainLib) (names : List String) → AsksName (is_named l names)
is_named-AsksName l names n m g = ap (λ name. any (l.equal_fold name) names) (Grows-name n m g)

some-eq : (n m : XmlNode) → some n ≡ some m → n ≡ m
some-eq n m e = cc

pub none_no : {m : XmlNode} → none ≡ some m → ⊥
none_no e = cc

-- What is found in the first part is found in the whole, grown at most.
pub find-AllGrow :
    (p : XmlNode → Bool) {ns ms : XmlNodes} (c : XmlNode)
    → AsksName p
    → AllGrow ns ms
    → find p (listed ns) ≡ some c
    → (c' : XmlNode) × (find p (listed ms) ≡ some c') × Grows c c'
find-AllGrow p c asks added e = cc
find-AllGrow p c asks (last_grows {n} {m} g) e = elim (Bool-cases (p n)) [
  | inl yes_n ↦ (
    m,
    rw (sym (asks n m g) ∙ yes_n) refl,
    subst (λ k. Grows k m) (some-eq n c (rw yes_n at e)) g,
  )
  | inr no_n ↦ absurd (none_no (rw no_n at e))
]
find-AllGrow p c asks (kept {n} h) e = elim (Bool-cases (p n)) [
  | inl yes_n ↦ (c, rw yes_n (rw yes_n at e), Grows-refl c)
  | inr no_n ↦ (let f = find-AllGrow p c asks h (rw no_n at e) in (f.0, rw no_n f.1, f.2))
]

-- Two lists that agree but for the last of the first and what the second has from there on.
pub record Agree {ℓ} {A : Type ℓ} (xs ys : List A) : Type ℓ where
  pub shared : List A
  pub rest : List A
  pub rest' : List A
  pub first_lem : xs ≡ shared ++ rest
  pub second_lem : ys ≡ shared ++ rest'
  pub at_most_one : length rest ≤ 1

pub select-AllGrow :
    (p : XmlNode → Bool) {ns ms : XmlNodes}
    → AsksName p
    → AllGrow ns ms
    → Agree (select p (listed ns)) (select p (listed ms))
select-AllGrow p {ms} asks added = record {
  shared = [];
  rest = [];
  rest' = select p (listed ms);
  first_lem = refl;
  second_lem = refl;
  at_most_one = omega arith;
}
select-AllGrow p asks (last_grows {n} {m} {ms} g) = record {
  shared = [];
  rest = select p (n ∷ []);
  rest' = select p (m ∷ listed ms);
  first_lem = refl;
  second_lem = refl;
  at_most_one = ground arith;
}
select-AllGrow p asks (kept {n} h) =
    let a = select-AllGrow p asks h in
    record {
      shared = if p n then n ∷ a.shared else a.shared;
      rest = a.rest;
      rest' = a.rest';
      first_lem = ground (arith, a.first_lem);
      second_lem = ground (arith, a.second_lem);
      at_most_one = a.at_most_one;
    }
