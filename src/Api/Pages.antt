-- ===== src/Api/Pages.antt =====
-- backend/internal/httpapi/server.go: the handlers that list articles. HydrateCards is a parameter.
use Prim.Native.String.{count}
use afghanistan_news.Base.{
  [], ◌∷◌, Bool, not, Option, none, some, List, String, ltb, str_eq, if◌then◌else◌,
}
use afghanistan_news.Articles.Rows.{Article}
use afghanistan_news.Query.Cursor.{Bytes, Codec}
use afghanistan_news.Query.Filter.{ArticleQuery, QueryDb}
use afghanistan_news.Query.Page.{query_articles}
use afghanistan_news.Query.Diversity.{apply_source_diversity}
use afghanistan_news.Api.Public.{
  RequestLib, Values, ParamError, query, refused, parse_article_query, is_province,
}

-- A card keeps its article; the fields that HydrateCards adds to it are its parameter.
pub data Answer : Type 0 where
  listed : List Article → Bytes → Answer
  invalid : ParamError → Answer
  unknown_province empty_query long_query not_found server_error : Answer

-- The store, the codec of cursors and the parser of parameters; `hydrates` says whether the
-- statements of HydrateCards succeed, which keep the articles in their order.
pub record Site : Type 0 where
  pub lib : RequestLib
  pub codec : Codec
  pub db : QueryDb
  pub hydrates : Bool

-- HydrateCards: no statement is needed where there is no article, and each article gets one card.
unfoldable pub hydrate_cards : Bool → List Article → Option (List Article)
hydrate_cards hydrates [] = some []
hydrate_cards hydrates (a ∷ arts) = if hydrates then some (a ∷ arts) else none

abbrev pub card_answer : (List Article → List Article) → Bytes → Option (List Article) → Answer
card_answer arrange next none = server_error
card_answer arrange next (some cards) = listed (arrange cards) next

abbrev pub page_answer :
    Site → (List Article → List Article) → Option (List Article × Bytes) → Answer
page_answer s arrange none = server_error
page_answer s arrange (some (rows, next)) = card_answer arrange next (hydrate_cards s.hydrates rows)

-- QueryArticles and HydrateCards, with the errors of both.
unfoldable pub answer_query : Site → ArticleQuery → (List Article → List Article) → Answer
unfolding query_articles hydrate_cards
answer_query s q arrange = page_answer s arrange (query_articles s.codec s.db q)

abbrev pub or_cards : List Article → Option (List Article) → List Article
or_cards cards none = cards
or_cards cards (some spread) = spread

-- ApplySourceDiversity(cards, 2), whose rounds do not run out.
unfoldable pub diverse : List Article → List Article
diverse cards = or_cards cards (apply_source_diversity (λ (a : Article). a.source_id) 2 cards)

unfoldable pub handle_articles : Site → Values → Answer
unfolding parse_article_query answer_query diverse
handle_articles s v = elim (parse_article_query s.lib v) [
  | refused e ↦ invalid e
  | query q ↦ answer_query s q (if str_eq q.sort "top" then diverse else (λ cards. cards))
]

unfoldable pub handle_province_articles : Site → String → Values → Answer
unfolding parse_article_query answer_query is_province
handle_province_articles s id v =
    if not (is_province s.lib id) then unknown_province else elim (parse_article_query s.lib v) [
      | refused e ↦ invalid e
      | query q ↦ answer_query s (record q { province = id }) (λ cards. cards)
    ]

unfoldable pub handle_search : Site → Values → Answer
unfolding parse_article_query answer_query
handle_search s v =
    let text = s.lib.trim (v "q") in
    elim (parse_article_query s.lib v) [
      | refused e ↦ invalid e
      | query q ↦
          if str_eq text ""
          then empty_query
          else if ltb 200 (count text)
          then long_query
          else answer_query s (record q { query = text }) (λ cards. cards)
    ]
