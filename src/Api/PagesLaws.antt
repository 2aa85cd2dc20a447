-- ===== src/Api/PagesLaws.antt =====
-- backend/internal/httpapi/server.go and related.go: which articles the public lists can show.
use Prim.Native.String.{count}
use mathlib.Core.Path.{subst}
use afghanistan_news.Base.{
  [], ◌∷◌, ℕ, Bool, true, false, not, ◌||◌, Option, none, some, List, String, ◌≡◌, refl, sym, All,
  ◌∙◌, ltb, str_eq, if◌then◌else◌,
}
use afghanistan_news.Articles.Rows.{Article}
use afghanistan_news.Query.Cursor.{Bytes}
use afghanistan_news.Query.Filter.{ArticleQuery}
use afghanistan_news.Query.Page.{query_articles}
use afghanistan_news.Query.DiversityLaws.{apply_source_diversity-Perm}
use afghanistan_news.Api.Public.{
  RequestLib, Values, Parsed, query, refused, bad_category, bad_sort, bad_province, bad_language,
  known_category, from_time, to_time, and_then, base_query, with_sort, with_category, with_province,
  with_breaking, with_from, with_to, with_language, parse_article_query, is_province,
}
use afghanistan_news.Api.Pages.{
  hydrate_cards, card_answer, page_answer, Answer, listed, invalid, unknown_province, empty_query,
  long_query, Site, answer_query, or_cards, diverse, handle_articles, handle_province_articles,
  handle_search,
}
use afghanistan_news.Query.ActiveLaws.{
  All→all_active, IsActive, PageActive, all_active-Perm, all_active→All, query_articles-IsActive,
}

-- Every article of a list is active; the other answers show none.
abbrev pub ShowsActive : Answer → Type 0
ShowsActive (listed rows next) = All IsActive rows
ShowsActive _ = Unit {0}

pub card_answer-ShowsActive :
    (hydrates : Bool) (arrange : List Article → List Article) (next : Bytes) (rows : List Article)
    → ((cards : List Article) → All IsActive cards → All IsActive (arrange cards))
    → All IsActive rows
    → ShowsActive (card_answer arrange next (hydrate_cards hydrates rows))
unfolding hydrate_cards
card_answer-ShowsActive hydrates arrange next [] keep h = keep [] tt
card_answer-ShowsActive true arrange next (a ∷ arts) keep h = keep (a ∷ arts) h
card_answer-ShowsActive false arrange next (a ∷ arts) keep h = tt

page_answer-ShowsActive :
    (s : Site) (arrange : List Article → List Article) (page : Option (List Article × Bytes))
    → ((rows : List Article) → All IsActive rows → All IsActive (arrange rows))
    → PageActive page
    → ShowsActive (page_answer s arrange page)
page_answer-ShowsActive s arrange none keep h = tt
page_answer-ShowsActive s arrange (some (rows, next)) keep h =
    card_answer-ShowsActive s.hydrates arrange next rows keep h

pub answer_query-ShowsActive :
    (s : Site) (q : ArticleQuery) (arrange : List Article → List Article)
    → q.include_hidden ≡ false
    → ((rows : List Article) → All IsActive rows → All IsActive (arrange rows))
    → ShowsActive (answer_query s q arrange)
unfolding answer_query
answer_query-ShowsActive s q arrange e keep =
    page_answer-ShowsActive s arrange (query_articles s.codec s.db q) keep
      (query_articles-IsActive s.codec s.db q e)

diverse-IsActive : (rows : List Article) → All IsActive rows → All IsActive (diverse rows)
unfolding diverse
diverse-IsActive rows h =
    let spread = apply_source_diversity-Perm (λ (a : Article). a.source_id) 2 rows in
    subst (λ o. All IsActive (or_cards rows o)) (sym spread.1)
      (all_active→All spread.0
        (sym (all_active-Perm rows spread.0 spread.2) ∙ All→all_active rows h))

-- A property of the query, where the parameters are accepted.
abbrev pub IsPublic : Parsed → Type 0
IsPublic (query q) = q.include_hidden ≡ false
IsPublic (refused e) = Unit {0}

IsPublic-then :
    (m : Parsed) (f : ArticleQuery → Parsed)
    → IsPublic m
    → ((q : ArticleQuery) → q.include_hidden ≡ false → IsPublic (f q))
    → IsPublic (and_then m f)
IsPublic-then (query q) f h k = k q h
IsPublic-then (refused e) f h k = tt

IsPublic-if : (b : Bool) (m n : Parsed) → IsPublic m → IsPublic n → IsPublic (if b then m else n)
IsPublic-if true m n h k = h
IsPublic-if false m n h k = k

known_category-IsPublic :
    (o : Option Bool) (q : ArticleQuery) → q.include_hidden ≡ false → IsPublic (known_category o q)
known_category-IsPublic none q h = tt
known_category-IsPublic (some known) q h = IsPublic-if known (query q) (refused bad_category) h tt

category-IsPublic :
    (l : RequestLib) (q : ArticleQuery) → q.include_hidden ≡ false → IsPublic (with_category l q)
unfolding with_category
category-IsPublic l q h =
    IsPublic-if (str_eq q.category "") (query q) _ h
      (known_category-IsPublic (l.category_exists q.category) q h)

from_time-IsPublic :
    (o : Option ℕ) (q : ArticleQuery) → q.include_hidden ≡ false → IsPublic (from_time o q)
from_time-IsPublic none q h = tt
from_time-IsPublic (some t) q h = h

to_time-IsPublic :
    (o : Option ℕ) (q : ArticleQuery) → q.include_hidden ≡ false → IsPublic (to_time o q)
to_time-IsPublic none q h = tt
to_time-IsPublic (some t) q h = h

from-IsPublic :
    (l : RequestLib) (t : String) (q : ArticleQuery)
    → q.include_hidden ≡ false
    → IsPublic (with_from l t q)
unfolding with_from
from-IsPublic l t q h =
    IsPublic-if (str_eq t "") (query q) _ h (from_time-IsPublic (l.parse_rfc3339 t) q h)

to-IsPublic :
    (l : RequestLib) (t : String) (q : ArticleQuery)
    → q.include_hidden ≡ false
    → IsPublic (with_to l t q)
unfolding with_to
to-IsPublic l t q h =
    IsPublic-if (str_eq t "") (query q) _ h (to_time-IsPublic (l.parse_rfc3339 t) q h)

sort-IsPublic : (q : ArticleQuery) → q.include_hidden ≡ false → IsPublic (with_sort q)
unfolding with_sort
sort-IsPublic q h =
    IsPublic-if (str_eq q.sort "latest" || str_eq q.sort "top") (query q) (refused bad_sort) h tt

province-IsPublic :
    (l : RequestLib) (p : String) (q : ArticleQuery)
    → q.include_hidden ≡ false
    → IsPublic (with_province l p q)
unfolding with_province
province-IsPublic l p q h =
    IsPublic-if (str_eq p "") (query q) _ h (
      IsPublic-if (is_province l p) (query (record q { province = p })) (refused bad_province) h tt)

breaking-IsPublic :
    (br : String) (q : ArticleQuery) → q.include_hidden ≡ false → IsPublic (with_breaking br q)
unfolding with_breaking
breaking-IsPublic br q h = IsPublic-if (str_eq br "") (query q) (query _) h h

language-IsPublic : (q : ArticleQuery) → q.include_hidden ≡ false → IsPublic (with_language q)
unfolding with_language
language-IsPublic q h = IsPublic-if _ (query q) (refused bad_language) h tt

pub parse_article_query-IsPublic :
    (l : RequestLib) (v : Values) → IsPublic (parse_article_query l v)
unfolding parse_article_query
parse_article_query-IsPublic l v =
    IsPublic-then (with_sort (base_query l v)) _
      (sort-IsPublic (base_query l v) (unfold base_query in refl))
      λ q₁ h₁. IsPublic-then (with_category l q₁) _ (category-IsPublic l q₁ h₁) λ q₂ h₂.
        IsPublic-then (with_province l (v "province") q₂) _
          (province-IsPublic l (v "province") q₂ h₂)
          λ q₃ h₃.
            IsPublic-then (with_breaking (v "breaking") q₃) _
              (breaking-IsPublic (v "breaking") q₃ h₃)
              λ q₄ h₄.
                IsPublic-then (with_from l (v "from") q₄) _ (from-IsPublic l (v "from") q₄ h₄)
                  λ q₅ h₅.
                    IsPublic-then (with_to l (v "to") q₅) _ (to-IsPublic l (v "to") q₅ h₅)
                      λ q₆ h₆. language-IsPublic q₆ h₆

-- An answer that is made of a parsed query.
pub parsed_answer :
    (m : Parsed) (f : ArticleQuery → Answer)
    → IsPublic m
    → ((q : ArticleQuery) → q.include_hidden ≡ false → ShowsActive (f q))
    → ShowsActive (elim m [ refused e ↦ invalid e | query q ↦ f q ])
parsed_answer (query q) f h k = k q h
parsed_answer (refused e) f h k = tt

ShowsActive-if :
    (b : Bool) (m n : Answer) → ShowsActive m → ShowsActive n → ShowsActive (if b then m else n)
ShowsActive-if true m n h k = h
ShowsActive-if false m n h k = k

arranged-IsActive :
    (b : Bool) (rows : List Article)
    → All IsActive rows
    → All IsActive ((if b then diverse else (λ cards. cards)) rows)
arranged-IsActive true rows h = diverse-IsActive rows h
arranged-IsActive false rows h = h

pub articles-ShowsActive : (s : Site) (v : Values) → ShowsActive (handle_articles s v)
unfolding handle_articles
articles-ShowsActive s v =
    parsed_answer (parse_article_query s.lib v) _ (parse_article_query-IsPublic s.lib v)
      λ q h. answer_query-ShowsActive s q _ h (arranged-IsActive (str_eq q.sort "top"))

pub province-ShowsActive :
    (s : Site) (id : String) (v : Values) → ShowsActive (handle_province_articles s id v)
unfolding handle_province_articles
province-ShowsActive s id v = ShowsActive-if (not (is_province s.lib id)) unknown_province _ tt (
    parsed_answer (parse_article_query s.lib v) _ (parse_article_query-IsPublic s.lib v)
      λ q h. answer_query-ShowsActive s (record q { province = id }) _ h (λ rows k. k))

pub search-ShowsActive : (s : Site) (v : Values) → ShowsActive (handle_search s v)
unfolding handle_search
search-ShowsActive s v =
    parsed_answer (parse_article_query s.lib v) _ (parse_article_query-IsPublic s.lib v) λ q h.
      ShowsActive-if (str_eq (s.lib.trim (v "q")) "") empty_query _ tt (
        ShowsActive-if (ltb 200 (count (s.lib.trim (v "q")))) long_query _ tt
          (answer_query-ShowsActive s (record q { query = s.lib.trim (v "q") }) _ h (λ rows k. k)))
