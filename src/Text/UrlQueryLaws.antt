-- ===== src/Text/UrlQueryLaws.antt =====
-- net/url as backend/internal/feed/normalize/normalize.go uses it: the values of a query are shorter than
-- its text.
use afghanistan_news.Base.{
  ℕ, suc, ◌-◌, ◌≤◌, Bool, true, false, Option, none, some, List, [], ◌∷◌, ◌==◌, All, any, length,
  inl, inr, ◌||◌, Bool-cases, arith, if◌then◌else◌,
}
use afghanistan_news.Query.Cursor.{Bytes}
use afghanistan_news.Api.Session.{bytes_eq}
use afghanistan_news.Text.UrlQuery.{
  hex_digit, and_byte, and_hex, plus_space, unescape, and_first, pieces, cut_equals, Groups,
  and_value, and_pair, group_pieces, parse_query,
}

abbrev FitsIn : ℕ → Option Bytes → Type 0
FitsIn n none = Unit {0}
FitsIn n (some t) = length t ≤ n

FitsIn-if :
    (n : ℕ) (b : Bool) (m o : Option Bytes)
    → FitsIn n m
    → FitsIn n o
    → FitsIn n (if b then m else o)
FitsIn-if n true m o h k = h
FitsIn-if n false m o h k = k

and_byte-FitsIn : (n c : ℕ) (o : Option Bytes) → FitsIn n o → FitsIn (suc n) (and_byte c o)
and_byte-FitsIn n c none h = tt
and_byte-FitsIn n c (some t) h = omega (arith, h)

and_hex-FitsIn :
    (n : ℕ) (a b : Option ℕ) (o : Option Bytes)
    → FitsIn n o
    → FitsIn (suc (suc (suc n))) (and_hex a b o)
and_hex-FitsIn n none b o h = tt
and_hex-FitsIn n (some a) none o h = tt
and_hex-FitsIn n (some a) (some b) none h = tt
and_hex-FitsIn n (some a) (some b) (some t) h = omega (arith, h)

unescape-FitsIn : (s : Bytes) → FitsIn (length s) (unescape s)
unfolding unescape
unescape-FitsIn [] = omega arith
unescape-FitsIn (c ∷ []) = FitsIn-if 1 (c == 37) none (some (plus_space c ∷ [])) tt (omega arith)
unescape-FitsIn (c ∷ (x ∷ [])) =
    FitsIn-if 2 (c == 37) none _ tt
      (and_byte-FitsIn 1 (plus_space c) (unescape (x ∷ [])) (unescape-FitsIn (x ∷ [])))
unescape-FitsIn (c ∷ (x ∷ (y ∷ s))) =
    FitsIn-if (suc (suc (suc (length s)))) (c == 37) _ _
      (and_hex-FitsIn (length s) (hex_digit x) (hex_digit y) (unescape s) (unescape-FitsIn s))
      (and_byte-FitsIn (suc (suc (length s))) (plus_space c) (unescape (x ∷ (y ∷ s)))
        (unescape-FitsIn (x ∷ (y ∷ s))))

-- The value stands after the byte =, which it has not.
length-cut_equals : (s : Bytes) → length (cut_equals s).1 ≤ length s - 1
unfolding cut_equals
length-cut_equals [] = omega arith
length-cut_equals (c ∷ s) = ground (arith, length-cut_equals s)

abbrev AllFit : ℕ → List Bytes → Type 0
AllFit n ps = All (λ (p : Bytes). length p ≤ n) ps

AllFit-grow : (n : ℕ) (ps : List Bytes) → AllFit n ps → AllFit (suc n) ps
AllFit-grow n [] h = tt
AllFit-grow n (p ∷ ps) h = (omega (arith, h.0), AllFit-grow n ps h.1)

and_first-AllFit : (n c : ℕ) (ps : List Bytes) → AllFit n ps → AllFit (suc n) (and_first c ps)
and_first-AllFit n c [] h = (omega arith, tt)
and_first-AllFit n c (p ∷ ps) h = (omega (arith, h.0), AllFit-grow n ps h.1)

pieces-AllFit : (s : Bytes) → AllFit (length s) (pieces s)
unfolding pieces
pieces-AllFit [] = (omega arith, tt)
pieces-AllFit (c ∷ s) = elim (Bool-cases (c == 38)) [
  | inl e ↦ rw e ((omega arith, AllFit-grow (length s) (pieces s) (pieces-AllFit s)))
  | inr e ↦ rw e (and_first-AllFit (length s) c (pieces s) (pieces-AllFit s))
]

-- Every value of every key.
abbrev pub ValuesFit : ℕ → Groups → Type 0
ValuesFit n [] = Unit {0}
ValuesFit n ((k, vs) ∷ rest) = AllFit n vs × ValuesFit n rest

and_value-ValuesFit :
    (n : ℕ) (k v : Bytes) (g : Groups)
    → length v ≤ n
    → ValuesFit n g
    → ValuesFit n (and_value k v g)
unfolding and_value
and_value-ValuesFit n k v [] h w = ((h, tt), tt)
and_value-ValuesFit n k v ((j, vs) ∷ rest) h w = elim (Bool-cases (bytes_eq j k)) [
  | inl e ↦ rw e (((h, w.0), w.1))
  | inr e ↦ rw e ((w.0, and_value-ValuesFit n k v rest h w.1))
]

and_pair-ValuesFit :
    (n : ℕ) (a b : Option Bytes) (g : Groups)
    → FitsIn n b
    → ValuesFit n g
    → ValuesFit n (and_pair a b g)
and_pair-ValuesFit n none b g h w = w
and_pair-ValuesFit n (some k) none g h w = w
and_pair-ValuesFit n (some k) (some v) g h w = and_value-ValuesFit n k v g h w

FitsIn-le : (m n : ℕ) (o : Option Bytes) → m ≤ n → FitsIn m o → FitsIn n o
FitsIn-le m n none l h = tt
FitsIn-le m n (some t) l h = omega (arith, l, h)

value_fits : (n : ℕ) (p : Bytes) → length p ≤ n → FitsIn (n - 1) (unescape (cut_equals p).1)
value_fits n p h =
    FitsIn-le (length (cut_equals p).1) (n - 1) _ (omega (arith, length-cut_equals p, h))
      (unescape-FitsIn (cut_equals p).1)

group_pieces-ValuesFit :
    (n : ℕ) (ps : List Bytes) → AllFit n ps → ValuesFit (n - 1) (group_pieces ps)
unfolding group_pieces
group_pieces-ValuesFit n [] h = tt
group_pieces-ValuesFit n (p ∷ ps) h =
    let rest = group_pieces-ValuesFit n ps h.1 in
    elim (Bool-cases (bytes_eq p [] || any (λ c. c == 59) p)) [
      | inl e ↦ rw e rest
      | inr e ↦ rw e (
          and_pair-ValuesFit (n - 1) (unescape (cut_equals p).0) (unescape (cut_equals p).1)
            (group_pieces ps) (value_fits n p h.0) rest)
    ]

-- A value of a query is shorter than the query, or both are empty.
pub parse_query-ValuesFit : (raw : Bytes) → ValuesFit (length raw - 1) (parse_query raw)
unfolding parse_query
parse_query-ValuesFit raw = group_pieces-ValuesFit (length raw) (pieces raw) (pieces-AllFit raw)
