-- ===== src/Query/OrderLaws.antt =====
-- backend/internal/store/articles_query.go: the order of time and id is a strict order, and tells rows
-- with different ids apart.
use afghanistan_news.Base.{
  true, false, [], ◌∷◌, ◌≡◌, refl, ◌≢◌, inl, inr, ◌==◌, ==_iff, Bool-cases, arith,
}
use afghanistan_news.Query.Cursor.{Bytes, Cursor}
use afghanistan_news.Query.Page.{bytes_lt, later}

bytes_lt_irrefl : (b : Bytes) → bytes_lt b b ≡ false
unfolding bytes_lt
bytes_lt_irrefl [] = refl
bytes_lt_irrefl (x ∷ b) = ground (arith, bytes_lt_irrefl b)

bytes_lt_trans : (a b c : Bytes) → bytes_lt a b ≡ true → bytes_lt b c ≡ true → bytes_lt a c ≡ true
unfolding bytes_lt
bytes_lt_trans [] [] c h i = cc
bytes_lt_trans [] (y ∷ b) [] h i = cc
bytes_lt_trans [] (y ∷ b) (z ∷ c) h i = refl
bytes_lt_trans (x ∷ a) [] c h i = cc
bytes_lt_trans (x ∷ a) (y ∷ b) [] h i = cc
bytes_lt_trans (x ∷ a) (y ∷ b) (z ∷ c) h i = ground (arith, bytes_lt_trans a b c)

bytes_lt_total : (a b : Bytes) → a ≢ b → bytes_lt a b ≡ false → bytes_lt b a ≡ true
unfolding bytes_lt
bytes_lt_total [] [] n h = absurd (n refl)
bytes_lt_total [] (y ∷ b) n h = cc
bytes_lt_total (x ∷ a) [] n h = refl
bytes_lt_total (x ∷ a) (y ∷ b) n h = elim (Bool-cases (x == y)) [
  | inl e ↦ let same = (==_iff x y).0 e in ground (arith, bytes_lt_total a b (λ i. n (cc)))
  | inr e ↦ ground arith
]

pub later_irrefl : (c : Cursor) → later c c ≡ false
unfolding later
later_irrefl c = ground (arith, bytes_lt_irrefl c.id)

pub later_trans : (a b c : Cursor) → later a b ≡ true → later b c ≡ true → later a c ≡ true
unfolding later
later_trans a b c h i = ground (arith, bytes_lt_trans c.id b.id a.id)

pub later_total : (a b : Cursor) → a.id ≢ b.id → later a b ≡ false → later b a ≡ true
unfolding later
later_total a b n h = ground (arith, bytes_lt_total b.id a.id (λ e. n (cc)))
