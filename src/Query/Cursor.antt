-- ===== src/Query/Cursor.antt =====
-- backend/internal/store/articles_query.go: Cursor, Encode and DecodeCursor. Tokens and ids are lists of
-- bytes; fmt and encoding/base64 are the record Codec.
use afghanistan_news.Base.{ℕ, Bool, Option, none, some, List, [], ◌∷◌, ◌++◌, ◌==◌, if◌then◌else◌}

abbrev pub Bytes : Type 0
Bytes = List ℕ

-- RawURLEncoding, Sprintf and Sscanf with %d, and whether TrimSpace leaves nothing.
pub record Codec : Type 0 where
  pub encode64 : Bytes → Bytes
  pub decode64 : Bytes → Option Bytes
  pub format_int : ℕ → Bytes
  pub scan_int : Bytes → Option ℕ
  pub is_blank : Bytes → Bool

pub record Cursor : Type 0 where
  pub published_at : ℕ
  pub id : Bytes

-- The byte |
abbrev pub bar : ℕ
bar = 124

unfoldable pub encode : Codec → Cursor → Bytes
encode k c = k.encode64 (k.format_int c.published_at ++ (bar ∷ c.id))

-- strings.SplitN(s, "|", 2), where it has two parts.
unfoldable pub split_bar : Bytes → Option (Bytes × Bytes)
split_bar [] = none
split_bar (c ∷ s) =
    let rest = split_bar s in
    if c == bar
    then some ([], s)
    else elim rest [ none ↦ none | some (before, after) ↦ some (c ∷ before, after) ]

pub data Decoded : Type 0 where
  no_cursor : Decoded
  at : Cursor → Decoded
  invalid_encoding invalid_payload invalid_timestamp : Decoded

unfoldable pub decode_payload : Codec → Bytes → Decoded
decode_payload k raw = elim (split_bar raw) [
  | none ↦ invalid_payload
  | some (stamp, id) ↦ elim (k.scan_int stamp) [
    | none ↦ invalid_timestamp
    | some nanos ↦ at (record { published_at = nanos; id = id })
  ]
]

unfoldable pub decode_cursor : Codec → Bytes → Decoded
decode_cursor k token =
    if k.is_blank token
    then no_cursor
    else elim (k.decode64 token) [ none ↦ invalid_encoding | some raw ↦ decode_payload k raw ]
