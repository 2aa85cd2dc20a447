-- ===== src/Query/Page.antt =====
-- backend/internal/store/articles_query.go: QueryArticles, and a client that follows its cursors.
use afghanistan_news.Base.{
  ℕ, zero, suc, Bool, true, false, ◌&&◌, ◌||◌, Option, none, some, List, [], ◌∷◌, ◌++◌, str_eq, ltb,
  ◌==◌, length, take, select, if◌then◌else◌,
}
use afghanistan_news.Base.Sorting.{order_by}
use afghanistan_news.Base.Text.{codes}
use afghanistan_news.Articles.Rows.{Article}
use afghanistan_news.Query.Cursor.{
  Bytes, Codec, Cursor, encode, Decoded, no_cursor, at, decode_cursor,
}
use afghanistan_news.Query.Filter.{ArticleQuery, QueryDb, position_time, selected, score}

-- The order of texts, byte by byte.
unfoldable pub bytes_lt : Bytes → Bytes → Bool
bytes_lt [] [] = false
bytes_lt [] (y ∷ ys) = true
bytes_lt (x ∷ xs) [] = false
bytes_lt (x ∷ xs) (y ∷ ys) = ltb x y || (x == y && bytes_lt xs ys)

abbrev pub key_of : Article → Cursor
key_of a = record { published_at = position_time a; id = codes a.id }

-- (t, id) stands after (u, id') in the order of time and id, both descending.
unfoldable pub later : Cursor → Cursor → Bool
later c d =
    ltb d.published_at c.published_at || (c.published_at == d.published_at && bytes_lt d.id c.id)

unfoldable pub page_limit : ℕ → ℕ
page_limit n = let limit = (if n == 0 then 30 else n) in if ltb 100 limit then 100 else limit

abbrev pub is_top : ArticleQuery → Bool
is_top q = str_eq q.sort "top"

-- The order for the top: the rank of a search, then the score, then the order of time.
unfoldable pub top_first : QueryDb → ArticleQuery → Article → Article → Bool
top_first d q a b =
    let text = d.trim q.query in
    let rank = λ (x : Article). (if str_eq text "" then 0 else d.rank text x) in
    ltb (rank b) (rank a)
    || (rank a == rank b
        && (ltb (score d b) (score d a) || (score d a == score d b && later (key_of a) (key_of b))))

-- ORDER BY: of two rows, the one that comes first.
unfoldable pub comes_first : QueryDb → ArticleQuery → Article → Article → Bool
comes_first d q a b = if is_top q then top_first d q a b else later (key_of a) (key_of b)

-- The condition of a cursor, which a query for the top leaves out.
unfoldable pub after_cursor : ArticleQuery → Decoded → Article → Bool
after_cursor q (at c) a = is_top q || later c (key_of a)
after_cursor q _ a = true

abbrev pub drop {ℓ} : {A : Type ℓ} → ℕ → List A → List A
drop zero xs = xs
drop (suc n) [] = []
drop (suc n) (x ∷ xs) = drop n xs

abbrev pub last_of {ℓ} : {A : Type ℓ} → List A → Option A
last_of [] = none
last_of (x ∷ []) = some x
last_of (x ∷ (y ∷ ys)) = last_of (y ∷ ys)

-- The rows of a page and the token of the next: one row more than the limit is read.
unfoldable pub cut_page : Codec → ℕ → List Article → List Article × Bytes
cut_page k limit rows =
    if ltb limit (length rows)
    then (
      take limit rows,
      elim (last_of (take limit rows)) [ none ↦ [] | some a ↦ encode k (key_of a) ],
    )
    else (rows, [])

unfoldable pub page_rows : QueryDb → ArticleQuery → Decoded → List Article
page_rows d q cur =
    let chosen = select (λ a. selected d q a && after_cursor q cur a) d.rows.articles in
    let sorted = order_by (comes_first d q) chosen in
    let rest : List Article = elim (q.cursor) [ [] ↦ drop q.offset sorted | _ ∷ _ ↦ sorted ] in
    take (suc (page_limit q.limit)) rest

-- `none` is the error for a token that cannot be read.
unfoldable pub query_articles : Codec → QueryDb → ArticleQuery → Option (List Article × Bytes)
query_articles k d q =
    let page = λ (cur : Decoded). cut_page k (page_limit q.limit) (page_rows d q cur) in
    elim (decode_cursor k q.cursor) [
      | no_cursor ↦ some (page no_cursor)
      | at c ↦ some (page (at c))
      | _ ↦ none
    ]

-- A client that asks for the next page until it is given no token; `none` also where it gives up.
unfoldable pub follow : Codec → QueryDb → ArticleQuery → ℕ → Bytes → Option (List Article)
follow k d q zero token = none
follow k d q (suc fuel) token = elim (query_articles k d (record q { cursor = token })) [
  | none ↦ none
  | some (rows, []) ↦ some rows
  | some (rows, c ∷ next) ↦ elim (follow k d q fuel (c ∷ next)) [
    | none ↦ none
    | some more ↦ some (rows ++ more)
  ]
]
