-- ===== src/Query/TopLaws.antt =====
-- backend/internal/store/articles_query.go: the cursor of a query for the top.
use afghanistan_news.Base.{
  ℕ, suc, true, ◌&&◌, some, List, [], ◌∷◌, ◌≡◌, refl, sym, ap, ◌∙◌, ◌⊎◌, inl, inr, ltb, length,
  take, select, Bool-cases, Option-cases, arith,
}
use afghanistan_news.Articles.Rows.{Article}
use afghanistan_news.Query.Cursor.{Bytes, Codec, Cursor, encode, no_cursor, at, decode_cursor}
use afghanistan_news.Query.CursorLaws.{IsCodec, decode_cursor-encode, encode_shape}
use afghanistan_news.Query.Filter.{ArticleQuery, QueryDb, selected}
use afghanistan_news.Query.PageLaws.{selected-cursor, query_at}
use afghanistan_news.Query.Page.{
  key_of, page_limit, is_top, last_of, drop, comes_first, top_first, after_cursor, page_rows,
  cut_page, query_articles,
}

-- The token of a page is empty, or the code of some cursor.
page_token :
    (k : Codec) (limit : ℕ) (rows : List Article)
    → ((cut_page k limit rows).1 ≡ []) ⊎ ((c : Cursor) × ((cut_page k limit rows).1 ≡ encode k c))
unfolding cut_page
page_token k limit rows = elim (Bool-cases (ltb limit (length rows))) [
  | inl e ↦ elim (Option-cases (last_of (take limit rows))) [
    | inl n ↦ inl (ground arith)
    | inr (a, p) ↦ inr (key_of a, ground arith)
  ]
  | inr e ↦ inl (ground arith)
]

selects_same :
    (d : QueryDb) (q : ArticleQuery) (token : Bytes) (c : Cursor) (rows : List Article)
    → is_top q ≡ true
    → select
        (λ a.
          selected d (record q { cursor = token }) a
          && after_cursor (record q { cursor = token }) (at c) a)
        rows
      ≡ select
          (λ a.
            selected d (record q { cursor = [] }) a
            && after_cursor (record q { cursor = [] }) no_cursor a)
          rows
unfolding after_cursor
selects_same d q token c [] top = refl
selects_same d q token c (a ∷ rows) top = ground (
  arith,
  selected-cursor d q token a,
  selected-cursor d q [] a,
  selects_same d q token c rows top,
)

drop_none : (n : ℕ) (rows : List Article) → n ≡ 0 → drop n rows ≡ rows
drop_none n rows e = rw e

module _ (k : Codec) (d : QueryDb) (q : ArticleQuery) (lawful : IsCodec k) (top : is_top q ≡ true)
    (no_offset : q.offset ≡ 0) where
  same_rows :
      (x : ℕ) (xs : Bytes) (c : Cursor)
      → page_rows d (record q { cursor = x ∷ xs }) (at c)
        ≡ page_rows d (record q { cursor = [] }) no_cursor
  unfolding page_rows comes_first top_first
  same_rows x xs c = rw (selects_same d q (x ∷ xs) c d.rows.articles top) (
      ap (λ (rows : List Article). take (suc (page_limit q.limit)) rows)
        (sym (drop_none q.offset _ no_offset)))

  query_first :
      query_articles k d (record q { cursor = [] })
      ≡ some (cut_page k (page_limit q.limit) (page_rows d (record q { cursor = [] }) no_cursor))
  unfolding query_articles decode_cursor
  query_first = ground (arith, lawful.empty_blank)

  query_again :
      (token : Bytes) (c : Cursor)
      → token ≡ encode k c
      → query_articles k d (record q { cursor = token })
        ≡ query_articles k d (record q { cursor = [] })
  query_again token c e =
      let t = encode_shape k c lawful in
      let same : token ≡ t.0 ∷ t.1 = e ∙ t.2 in
      let back : decode_cursor k (t.0 ∷ t.1) ≡ at c =
        ap (decode_cursor k) (sym t.2) ∙ decode_cursor-encode k c lawful in
      rw same (
        query_at k d (record q { cursor = t.0 ∷ t.1 }) c back
        ∙ ap (λ (rows : List Article). some (cut_page k (page_limit q.limit) rows))
            (same_rows t.0 t.1 c)
        ∙ sym query_first)

  -- Asked for the top without an offset, the code hands out the token of a next page and then
  -- ignores it: the query with that token gives the first page again, and the same token. The
  -- codec of the tokens is taken to be undone by its decoder.
  pub top_cursor_repeats :
      (rows : List Article) (token : Bytes)
      → query_articles k d (record q { cursor = [] }) ≡ some (rows, token)
      → query_articles k d (record q { cursor = token }) ≡ some (rows, token)
  top_cursor_repeats rows token h =
      let same : (cut_page k (page_limit q.limit)
            (page_rows d (record q { cursor = [] }) no_cursor)).1
          ≡ token =
        cc (query_first, h) in
      elim (page_token k (page_limit q.limit) (page_rows d (record q { cursor = [] }) no_cursor)) [
        | inl e ↦ rw (sym same ∙ e) (ground arith)
        | inr (c, e) ↦ query_again token c (sym same ∙ e) ∙ h
      ]
