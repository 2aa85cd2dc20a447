-- ===== src/Query/ActiveLaws.antt =====
-- backend/internal/store/articles_query.go: pages of queries that leave out hidden articles.
use mathlib.Core.Logic.{∥∥₁_elim}
use mathlib.Core.List.{Perm, Permᴰ}
use afghanistan_news.Base.{
  ℕ, zero, suc, Bool, true, false, ◌&&◌, Option, none, some, List, [], ◌∷◌, ◌≡◌, refl, ap, inl, inr,
  All, all, ◌∙◌, ltb, length, Bool-cases, arith,
}
use afghanistan_news.Base.Sorting.{All-order_by, All-take, All-select}
use afghanistan_news.Articles.Rows.{Article, is_active}
use afghanistan_news.Query.Cursor.{Bytes, Codec, Decoded, no_cursor, at, decode_cursor}
use afghanistan_news.Query.Filter.{ArticleQuery, QueryDb, selected, article_where}
use afghanistan_news.Query.Page.{query_articles, page_rows, cut_page, page_limit, drop}

abbrev pub IsActive : Article → Type 0
IsActive a = is_active a.status ≡ true

All-drop : (n : ℕ) (xs : List Article) → All IsActive xs → All IsActive (drop n xs)
All-drop zero xs h = h
All-drop (suc n) [] h = tt
All-drop (suc n) (x ∷ xs) h = All-drop n xs h.1

abbrev all_active : List Article → Bool
all_active cards = all (λ a. is_active a.status) cards

all_active-Permᴰ : {xs ys : List Article} → Permᴰ xs ys → all_active xs ≡ all_active ys
all_active-Permᴰ Permᴰ.nil = refl
all_active-Permᴰ (Permᴰ.cons e p) =
    ground (arith, ap (λ (a : Article). is_active a.status) e, all_active-Permᴰ p)
all_active-Permᴰ (Permᴰ.swap e e') =
    ground (
      arith,
      ap (λ (a : Article). is_active a.status) e,
      ap (λ (a : Article). is_active a.status) e',
    )
all_active-Permᴰ (Permᴰ.trans p q) = all_active-Permᴰ p ∙ all_active-Permᴰ q

pub all_active-Perm : (xs ys : List Article) → Perm xs ys → all_active xs ≡ all_active ys
all_active-Perm xs ys p = ∥∥₁_elim p (hlevel) (λ d. all_active-Permᴰ d)

pub All→all_active : (xs : List Article) → All IsActive xs → all_active xs ≡ true
All→all_active [] h = refl
All→all_active (x ∷ xs) h = ground (arith, h.0, All→all_active xs h.1)

pub all_active→All : (xs : List Article) → all_active xs ≡ true → All IsActive xs
all_active→All [] h = tt
all_active→All (x ∷ xs) h = (ground arith, all_active→All xs (ground arith))

selected-IsActive :
    (d : QueryDb) (q : ArticleQuery) (b : Bool) (a : Article)
    → q.include_hidden ≡ false
    → (selected d q a && b) ≡ true
    → IsActive a
unfolding selected article_where
selected-IsActive d q b a e h = ground (arith, e, h)

page-IsActive :
    (k : Codec) (limit : ℕ) (rows : List Article)
    → All IsActive rows
    → All IsActive (cut_page k limit rows).0
unfolding cut_page
page-IsActive k limit rows h = elim (Bool-cases (ltb limit (length rows))) [
  | inl e ↦ rw e (All-take IsActive limit rows h)
  | inr e ↦ rw e h
]

rest_of-IsActive :
    (q : ArticleQuery) (sorted : List Article) (cursor : Bytes)
    → All IsActive sorted
    → All IsActive (elim cursor [ [] ↦ drop q.offset sorted | _ ∷ _ ↦ sorted ])
rest_of-IsActive q sorted [] h = All-drop q.offset sorted h
rest_of-IsActive q sorted (c ∷ cs) h = h

page_rows-IsActive :
    (d : QueryDb) (q : ArticleQuery) (cur : Decoded)
    → q.include_hidden ≡ false
    → All IsActive (page_rows d q cur)
unfolding page_rows
page_rows-IsActive d q cur e = All-take IsActive (suc (page_limit q.limit)) _ (
    rest_of-IsActive q _ q.cursor (
      All-order_by IsActive _ _
        (All-select IsActive _ d.rows.articles (λ a. selected-IsActive d q _ a e))))

abbrev pub PageActive : Option (List Article × Bytes) → Type 0
PageActive none = Unit {0}
PageActive (some (rows, next)) = All IsActive rows

decoded-IsActive :
    (k : Codec) (d : QueryDb) (q : ArticleQuery) (cur : Decoded)
    → q.include_hidden ≡ false
    → PageActive (
        let page = λ (cur' : Decoded). cut_page k (page_limit q.limit) (page_rows d q cur') in
        elim cur [ no_cursor ↦ some (page no_cursor) | at c ↦ some (page (at c)) | _ ↦ none ])
decoded-IsActive k d q no_cursor e = page-IsActive k _ _ (page_rows-IsActive d q no_cursor e)
decoded-IsActive k d q (at c) e = page-IsActive k _ _ (page_rows-IsActive d q (at c) e)
decoded-IsActive k d q _ e = tt

pub query_articles-IsActive :
    (k : Codec) (d : QueryDb) (q : ArticleQuery)
    → q.include_hidden ≡ false
    → PageActive (query_articles k d q)
unfolding query_articles
query_articles-IsActive k d q e = decoded-IsActive k d q (decode_cursor k q.cursor) e
