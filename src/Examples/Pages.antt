-- ===== src/Examples/Pages.antt =====
-- Pages, cursors and the diversity of sources at concrete inputs.
use afghanistan_news.Base.{
  ℕ, zero, suc, ◌<◌, String, Bool, true, false, none, some, List, [], ◌∷◌, ◌≡◌, ◌≢◌, refl, ap, ◌==◌,
  All, length, arith, str_eq,
}
use mathlib.Core.List.{Perm}
use afghanistan_news.Query.Cursor.{Bytes, Codec, Cursor, at, encode, decode_cursor}
use afghanistan_news.Query.CursorLaws.{IsCodec, decode_cursor-encode}
use afghanistan_news.Query.Filter.{ArticleQuery, QueryDb, selected}
use afghanistan_news.Query.Page.{follow, later, bytes_lt}
use afghanistan_news.Query.PageLaws.{latest, follow-latest, DistinctIds}
use afghanistan_news.Query.Diversity.{apply_source_diversity}
use afghanistan_news.Query.DiversityLaws.{apply_source_diversity-Perm}
use afghanistan_news.Base.Sorting.{order_by}
use afghanistan_news.Api.Session.{bytes_eq}
use afghanistan_news.Api.SessionLaws.{bytes_eq_refl}
use afghanistan_news.Examples.Fixtures.{stored, no_articles, kabul}

-- A decimal-free codec: a number is that many ones, and a payload is its own code.
abbrev ones : ℕ → Bytes
ones zero = []
ones (suc n) = 49 ∷ ones n

abbrev is_empty : Bytes → Bool
is_empty [] = true
is_empty (x ∷ xs) = false

abbrev codec : Codec
codec = record {
  encode64 = λ b. b;
  decode64 = λ b. some b;
  format_int = ones;
  scan_int = λ b. some (length b);
  is_blank = is_empty;
}

length-ones : (n : ℕ) → length (ones n) ≡ n
length-ones zero = refl
length-ones (suc n) = ap suc (length-ones n)

ones_no_bar : (n : ℕ) → All (λ c. (c == 124) ≡ false) (ones n)
ones_no_bar zero = tt
ones_no_bar (suc n) = (refl, ones_no_bar n)

not_empty_visible : (bs : Bytes) → bs ≢ [] → is_empty bs ≡ false
not_empty_visible [] n = absurd (n refl)
not_empty_visible (x ∷ bs) n = refl

codec-IsCodec : IsCodec codec
codec-IsCodec = record {
  undone = λ bs. refl;
  read_back = λ n. ap some (length-ones n);
  no_bar = ones_no_bar;
  empty_blank = refl;
  visible = not_empty_visible;
}

abbrev mark : Cursor
mark = record { published_at = 7; id = 97 ∷ 124 ∷ 49 ∷ [] }

decode_cursor-encode_example : decode_cursor codec (encode codec mark) ≡ at mark
decode_cursor-encode_example = decode_cursor-encode codec mark codec-IsCodec

abbrev news : QueryDb
news = record {
  rows = record no_articles {
    articles =
        record stored { published_at = some 2 }
        ∷ record stored { id = "a2"; published_at = some 3 }
        ∷ record stored { id = "a3"; published_at = none; discovered_at = 3 }
        ∷ [];
  };
  feeds = kabul ∷ [];
  now = 1_000_000_000_000_000_000;
  matches = λ q a. str_eq a.title q;
  rank = λ q a. 0;
  trust = λ s. 5;
  trim = λ s. s;
}

abbrev two_a_page : ArticleQuery
two_a_page = record {
  digest = false;
  scope = "afghanistan";
  category = "";
  province = "";
  language = "en";
  source = "";
  cluster = "";
  feed = "";
  breaking = none;
  from = none;
  to = none;
  query = "";
  cursor = [];
  limit = 2;
  offset = 0;
  sort = "latest";
  include_hidden = false;
}

differ : (a b : Bytes) → bytes_eq a b ≡ false → a ≢ b
differ a b h e = let same : bytes_eq a b ≡ true = rw e (bytes_eq_refl b) in cc (same, h)

ids : DistinctIds news.rows.articles
ids = ((differ _ _ refl, (differ _ _ refl, tt)), ((differ _ _ refl, tt), (tt, tt)))

few : length (latest news two_a_page) < 4
unfolding latest selected order_by later bytes_lt
few = omega arith

follow-latest_example : follow codec news two_a_page 4 [] ≡ some (latest news two_a_page)
follow-latest_example = follow-latest codec news two_a_page codec-IsCodec refl refl ids 4 few

abbrev cards : List String
cards = "s1" ∷ "s1" ∷ "s1" ∷ "s2" ∷ []

apply_source_diversity-Perm_example :
    (out : List String) × (apply_source_diversity (λ (s : String). s) 1 cards ≡ some out)
    × Perm cards out
apply_source_diversity-Perm_example = apply_source_diversity-Perm (λ s. s) 1 cards
