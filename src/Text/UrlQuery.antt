-- ===== src/Text/UrlQuery.antt =====
-- net/url as backend/internal/feed/normalize/normalize.go uses it: QueryUnescape and ParseQuery, on texts
-- of bytes. A piece that is not well formed is left out.
use afghanistan_news.Base.{
  ℕ, ◌+◌, ◌-◌, ◌*◌, ◌&&◌, ◌||◌, Option, none, some, List, [], ◌∷◌, ◌==◌, leb, any, if◌then◌else◌,
}
use afghanistan_news.Query.Cursor.{Bytes}
use afghanistan_news.Api.Session.{bytes_eq}

abbrev pub hex_digit : ℕ → Option ℕ
hex_digit c =
    if leb 48 c && leb c 57
    then some (c - 48)
    else if leb 65 c && leb c 70
    then some (c - 55)
    else if leb 97 c && leb c 102
    then some (c - 87)
    else none

abbrev pub and_byte : ℕ → Option Bytes → Option Bytes
and_byte c none = none
and_byte c (some s) = some (c ∷ s)

abbrev pub and_hex : Option ℕ → Option ℕ → Option Bytes → Option Bytes
and_hex (some a) (some b) rest = and_byte (a * 16 + b) rest
and_hex _ _ rest = none

-- + stands for a space.
abbrev pub plus_space : ℕ → ℕ
plus_space c = if c == 43 then 32 else c

-- QueryUnescape; `none` for a % without two hexadecimal digits.
unfoldable pub unescape : Bytes → Option Bytes
unescape [] = some []
unescape (c ∷ []) = if c == 37 then none else some (plus_space c ∷ [])
unescape (c ∷ (x ∷ [])) =
    let plain = and_byte (plus_space c) (unescape (x ∷ [])) in if c == 37 then none else plain
unescape (c ∷ (x ∷ (y ∷ s))) =
    let escaped = and_hex (hex_digit x) (hex_digit y) (unescape s) in
    let plain = and_byte (plus_space c) (unescape (x ∷ (y ∷ s))) in
    if c == 37 then escaped else plain

abbrev pub and_first : ℕ → List Bytes → List Bytes
and_first c [] = (c ∷ []) ∷ []
and_first c (p ∷ ps) = (c ∷ p) ∷ ps

-- The pieces between the bytes &.
unfoldable pub pieces : Bytes → List Bytes
pieces [] = [] ∷ []
pieces (c ∷ s) = let rest = pieces s in if c == 38 then [] ∷ rest else and_first c rest

-- strings.Cut(s, "=")
unfoldable pub cut_equals : Bytes → Bytes × Bytes
cut_equals [] = ([], [])
cut_equals (c ∷ s) = let rest = cut_equals s in if c == 61 then ([], s) else (c ∷ rest.0, rest.1)

-- The values of a key stand together, in the order of the text.
abbrev pub Groups : Type 0
Groups = List (Bytes × List Bytes)

unfoldable pub and_value : Bytes → Bytes → Groups → Groups
and_value k v [] = (k, v ∷ []) ∷ []
and_value k v ((j, vs) ∷ rest) =
    let later = and_value k v rest in if bytes_eq j k then (j, v ∷ vs) ∷ rest else (j, vs) ∷ later

abbrev pub and_pair : Option Bytes → Option Bytes → Groups → Groups
and_pair (some k) (some v) groups = and_value k v groups
and_pair _ _ groups = groups

unfoldable pub group_pieces : List Bytes → Groups
unfolding unescape cut_equals and_value
group_pieces [] = []
group_pieces (p ∷ ps) =
    let rest = group_pieces ps in
    let more = and_pair (unescape (cut_equals p).0) (unescape (cut_equals p).1) rest in
    if bytes_eq p [] || any (λ c. c == 59) p then rest else more

-- u.Query() of a raw query.
unfoldable pub parse_query : Bytes → Groups
unfolding pieces group_pieces
parse_query raw = group_pieces (pieces raw)
