-- ===== src/Query/PageLaws.antt =====
-- backend/internal/store/articles_query.go: the pages of the latest articles make up the whole list.
use afghanistan_news.Base.{
  ℕ, zero, suc, ◌<◌, Bool, true, false, ◌&&◌, some, List, [], ◌∷◌, ◌++◌, ◌≡◌, refl, sym, ap, ◌∙◌,
  ◌≢◌, inl, inr, leb, length, length-append, take, select, Bool-cases, leb→le, arith,
}
use mathlib.Core.List.{append_assoc}
use mathlib.Core.Path.{fun_ext, subst}
use afghanistan_news.Base.Sorting.{order_by}
use afghanistan_news.Base.Keyset.{
  Pairwise, Sorted, Apart, All-imp, Pairwise-select, select-order_by, select-append_behind,
  order_by-Sorted,
}
use afghanistan_news.Base.Text.{codes}
use afghanistan_news.Articles.Rows.{Article}
use afghanistan_news.Query.Cursor.{Bytes, Codec, Cursor, encode, no_cursor, at, decode_cursor}
use afghanistan_news.Query.CursorLaws.{IsCodec, decode_cursor-encode, encode_shape}
use afghanistan_news.Query.Filter.{ArticleQuery, QueryDb, selected, article_where, search_where}
use afghanistan_news.Query.OrderLaws.{later_irrefl, later_trans, later_total}
use afghanistan_news.Query.CutLaws.{page_limit_bounds, cut_page_last, cut_page-More}
use afghanistan_news.Query.Page.{
  key_of, later, page_limit, is_top, comes_first, after_cursor, page_rows, cut_page, query_articles,
  follow,
}

-- The whole list that a query for the latest articles is about: the rows that it selects, the newest
-- first.
abbrev pub newest_first : Article → Article → Bool
newest_first a b = later (key_of a) (key_of b)

newest_trans :
    (a b c : Article) → newest_first a b ≡ true → newest_first b c ≡ true → newest_first a c ≡ true
newest_trans a b c h i = later_trans (key_of a) (key_of b) (key_of c) h i

unfoldable pub latest : QueryDb → ArticleQuery → List Article
latest d q = order_by newest_first (select (selected d q) d.rows.articles)

-- No two rows have the same id: it is the primary key.
abbrev pub DistinctIds : List Article → Type 0
DistinctIds rows = Pairwise (λ a b. codes a.id ≢ codes b.id) rows

same_order : (d : QueryDb) (q : ArticleQuery) → is_top q ≡ false → comes_first d q ≡ newest_first
unfolding comes_first
same_order d q e = fun_ext λ a. fun_ext λ b. rw e

pub selected-cursor :
    (d : QueryDb) (q : ArticleQuery) (token : Bytes) (a : Article)
    → selected d (record q { cursor = token }) a ≡ selected d q a
unfolding selected article_where search_where
selected-cursor d q token a = refl

no_condition :
    (d : QueryDb) (q : ArticleQuery) (rows : List Article)
    → select
        (λ a.
          selected d (record q { cursor = [] }) a
          && after_cursor (record q { cursor = [] }) no_cursor a)
        rows
      ≡ select (selected d q) rows
unfolding after_cursor
no_condition d q [] = refl
no_condition d q (a ∷ rows) = ground (arith, selected-cursor d q [] a, no_condition d q rows)

condition :
    (d : QueryDb) (q : ArticleQuery) (token : Bytes) (r : Article) (rows : List Article)
    → is_top q ≡ false
    → select
        (λ a.
          selected d (record q { cursor = token }) a
          && after_cursor (record q { cursor = token }) (at (key_of r)) a)
        rows
      ≡ select (newest_first r) (select (selected d q) rows)
unfolding after_cursor
condition d q token r [] e = refl
condition d q token r (a ∷ rows) e =
    ground (arith, selected-cursor d q token a, condition d q token r rows e)

apart :
    (rows : List Article)
    → DistinctIds rows
    → Pairwise (λ a b. newest_first a b ≡ false → newest_first b a ≡ true) rows
apart [] h = tt
apart (a ∷ rows) h = (All-imp rows (λ b n. later_total (key_of a) (key_of b) n) h.0, apart rows h.1)

shorter :
    {post : List Article} (pre : List Article) (r : Article) (back : List Article)
    → post ≡ pre ++ (r ∷ back)
    → (fuel : ℕ) → length post < suc fuel
    → length back < fuel
shorter pre r back e fuel h = omega (arith, ap length e, length-append pre (r ∷ back))

pub query_at :
    (k : Codec) (d : QueryDb) (q : ArticleQuery) (c : Cursor)
    → decode_cursor k q.cursor ≡ at c
    → query_articles k d q ≡ some (cut_page k (page_limit q.limit) (page_rows d q (at c)))
unfolding query_articles
query_at k d q c e = ground arith

module _ (k : Codec) (d : QueryDb) (q : ArticleQuery) (lawful : IsCodec k)
    (not_top : is_top q ≡ false) (no_offset : q.offset ≡ 0)
    (ids : DistinctIds d.rows.articles) where
  comparable_rows : Pairwise (Apart newest_first) (select (selected d q) d.rows.articles)
  comparable_rows =
      Pairwise-select (Apart newest_first) (selected d q) d.rows.articles
        (apart d.rows.articles ids)

  latest-Sorted : Sorted newest_first (latest d q)
  unfolding latest
  latest-Sorted = order_by-Sorted newest_first newest_trans _ comparable_rows

  behind :
      (pre : List Article) (r : Article) (post : List Article)
      → latest d q ≡ pre ++ (r ∷ post)
      → order_by newest_first (select (newest_first r) (select (selected d q) d.rows.articles))
        ≡ post
  unfolding latest
  behind pre r post e =
      sym (
        select-order_by newest_first newest_trans (newest_first r)
          (select (selected d q) d.rows.articles) comparable_rows)
      ∙ ap (λ (rows : List Article). select (newest_first r) rows) e
      ∙ select-append_behind newest_first newest_trans (λ a. later_irrefl (key_of a)) pre r post
          (subst (λ rows. Sorted newest_first rows) e (latest-Sorted))

  first_rows :
      page_rows d (record q { cursor = [] }) no_cursor
      ≡ take (suc (page_limit q.limit)) (latest d q)
  unfolding page_rows latest
  first_rows =
      rw
        (
          same_order d (record q { cursor = [] }) not_top,
          no_condition d q d.rows.articles,
          no_offset,
        )
        refl

  next_rows :
      (pre : List Article) (r : Article) (post : List Article) (c : ℕ) (token : Bytes)
      → latest d q ≡ pre ++ (r ∷ post)
      → page_rows d (record q { cursor = c ∷ token }) (at (key_of r))
        ≡ take (suc (page_limit q.limit)) post
  unfolding page_rows
  next_rows pre r post c token e =
      rw
        (
          same_order d (record q { cursor = c ∷ token }) not_top,
          condition d q (c ∷ token) r d.rows.articles not_top,
          behind pre r post e,
        )
        refl

  -- What a page of the remaining rows leads to, where the later pages lead to the rows behind it.
  follow_page :
      (fuel : ℕ) (token : Bytes) (post : List Article)
      → query_articles k d (record q { cursor = token })
        ≡ some (cut_page k (page_limit q.limit) (take (suc (page_limit q.limit)) post))
      → length post < suc fuel
      → ((pre : List Article) (r : Article) (back : List Article)
          → post ≡ pre ++ (r ∷ back)
          → follow k d q fuel (encode k (key_of r)) ≡ some back)
      → follow k d q (suc fuel) token ≡ some post
  unfolding follow
  follow_page fuel token post page enough rest =
      elim (Bool-cases (leb (length post) (page_limit q.limit))) [
        | inl e ↦ ground (arith, page, cut_page_last k (page_limit q.limit) post (leb→le _ _ e))
        | inr e ↦
            let m =
              cut_page-More k (page_limit q.limit) post (page_limit_bounds q.limit).0
                (ground arith) in
            let t = encode_shape k (key_of m.mark) lawful in
            ground (
              arith,
              page,
              m.page,
              t.2,
              m.whole,
              rest m.front m.mark m.back m.whole,
              append_assoc m.front (m.mark ∷ []) m.back,
            )
      ]

  query_next :
      (pre : List Article) (r : Article) (post : List Article)
      → latest d q ≡ pre ++ (r ∷ post)
      → query_articles k d (record q { cursor = encode k (key_of r) })
        ≡ some (cut_page k (page_limit q.limit) (take (suc (page_limit q.limit)) post))
  query_next pre r post e =
      let t = encode_shape k (key_of r) lawful in
      let back : decode_cursor k (t.0 ∷ t.1) ≡ at (key_of r) =
        ap (decode_cursor k) (sym t.2) ∙ decode_cursor-encode k (key_of r) lawful in
      rw (t.2) (
        query_at k d (record q { cursor = t.0 ∷ t.1 }) (key_of r) back
        ∙ ap (λ (rows : List Article). some (cut_page k (page_limit q.limit) rows))
            (next_rows pre r post t.0 t.1 e))

  query_first :
      query_articles k d (record q { cursor = [] })
      ≡ some (cut_page k (page_limit q.limit) (take (suc (page_limit q.limit)) (latest d q)))
  unfolding query_articles decode_cursor
  query_first = ground (arith, lawful.empty_blank, first_rows)

  follow_after :
      (fuel : ℕ) (pre : List Article) (r : Article) (post : List Article)
      → latest d q ≡ pre ++ (r ∷ post)
      → length post < fuel
      → follow k d q fuel (encode k (key_of r)) ≡ some post
  follow_after zero pre r post e enough = absurd (omega arith)
  follow_after (suc fuel) pre r post e enough =
      follow_page fuel (encode k (key_of r)) post (query_next pre r post e) enough
        λ pre' r' back split.
          follow_after fuel (pre ++ (r ∷ pre')) r' back
            (e
              ∙ ap (λ (rows : List Article). pre ++ (r ∷ rows)) split
              ∙ sym (append_assoc pre (r ∷ pre') (r' ∷ back)))
            (shorter pre' r' back split fuel enough)

  -- For a query that is not for the top and has no offset, over rows with distinct ids: whatever
  -- the limit of a page, a client that follows the tokens from the first page on gets every
  -- article that the query selects, each once and the newest first, and is then told to stop; one
  -- request more than there are articles is enough. The codec of the tokens is taken to be undone
  -- by its decoder.
  pub follow-latest :
      (fuel : ℕ) → length (latest d q) < fuel → follow k d q fuel [] ≡ some (latest d q)
  follow-latest zero enough = absurd (omega arith)
  follow-latest (suc fuel) enough =
      follow_page fuel [] (latest d q) query_first enough λ pre r back split.
        follow_after fuel pre r back split (shorter pre r back split fuel enough)
