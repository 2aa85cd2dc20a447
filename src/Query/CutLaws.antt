-- ===== src/Query/CutLaws.antt =====
-- backend/internal/store/articles_query.go: the cut of a page out of the rows that were read.
use afghanistan_news.Base.{
  ℕ, zero, suc, ◌≤◌, ◌<◌, some, List, [], ◌∷◌, ◌++◌, ◌≡◌, refl, ap, length, take, arith,
}
use afghanistan_news.Articles.Rows.{Article}
use afghanistan_news.Query.Cursor.{Codec, encode}
use afghanistan_news.Query.Page.{key_of, last_of, cut_page, page_limit}

pub page_limit_bounds : (n : ℕ) → (1 ≤ page_limit n) × (page_limit n ≤ 100)
unfolding page_limit
page_limit_bounds n = ground arith

module _ {ℓ} {A : Type ℓ} where
  take_all : (n : ℕ) (xs : List A) → length xs ≤ n → take n xs ≡ xs
  take_all zero [] h = refl
  take_all zero (x ∷ xs) h = absurd (omega arith)
  take_all (suc n) [] h = refl
  take_all (suc n) (x ∷ xs) h = rw (take_all n xs (omega arith))

  take-take-suc : (n : ℕ) (xs : List A) → take n (take (suc n) xs) ≡ take n xs
  take-take-suc zero xs = refl
  take-take-suc (suc n) [] = refl
  take-take-suc (suc n) (x ∷ xs) = rw (take-take-suc n xs)

  length-take-suc : (n : ℕ) (xs : List A) → n < length xs → length (take (suc n) xs) ≡ suc n
  length-take-suc n [] h = absurd (omega arith)
  length-take-suc zero (x ∷ xs) h = refl
  length-take-suc (suc n) (x ∷ xs) h = ground (arith, length-take-suc n xs)

  -- The last of the first n + 1 elements, what stands before it and what behind.
  pub record Cut (n : ℕ) (xs : List A) : Type ℓ where
    pub front : List A
    pub mark : A
    pub back : List A
    pub whole : xs ≡ front ++ (mark ∷ back)
    pub first : take (suc n) xs ≡ front ++ (mark ∷ [])
    pub last : last_of (take (suc n) xs) ≡ some mark

  cut : (n : ℕ) (xs : List A) → n < length xs → Cut n xs
  cut n [] h = absurd (omega arith)
  cut zero (x ∷ xs) h = record {
    front = [];
    mark = x;
    back = xs;
    whole = refl;
    first = refl;
    last = refl;
  }
  cut (suc n) (x ∷ []) h = absurd (omega arith)
  cut (suc n) (x ∷ (y ∷ ys)) h =
      let c = cut n (y ∷ ys) (omega arith) in
      record {
        front = x ∷ c.front;
        mark = c.mark;
        back = c.back;
        whole = ap (λ (zs : List A). x ∷ zs) c.whole;
        first = ap (λ (zs : List A). x ∷ zs) c.first;
        last = c.last;
      }

-- The last page has every row that is left and no token.
pub cut_page_last :
    (k : Codec) (limit : ℕ) (rows : List Article)
    → length rows ≤ limit
    → cut_page k limit (take (suc limit) rows) ≡ (rows, [])
unfolding cut_page
cut_page_last k limit rows h = rw (take_all (suc limit) rows (omega arith)) (ground arith)

pub record More (k : Codec) (limit : ℕ) (rows : List Article) : Type 0 where
  pub front : List Article
  pub mark : Article
  pub back : List Article
  pub whole : rows ≡ front ++ (mark ∷ back)
  pub page :
      cut_page k limit (take (suc limit) rows) ≡ (front ++ (mark ∷ []), encode k (key_of mark))

-- Another page ends at some row, and its token is the cursor of that row.
pub cut_page-More :
    (k : Codec) (limit : ℕ) (rows : List Article)
    → 1 ≤ limit
    → limit < length rows
    → More k limit rows
unfolding cut_page
cut_page-More k zero rows p h = absurd (omega arith)
cut_page-More k (suc n) rows p h =
    let c = cut n rows (omega arith) in
    record {
      front = c.front;
      mark = c.mark;
      back = c.back;
      whole = c.whole;
      page =
          ground
            (arith, take-take-suc (suc n) rows, length-take-suc (suc n) rows h, c.first, c.last);
    }
