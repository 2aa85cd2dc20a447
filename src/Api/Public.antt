-- ===== src/Api/Public.antt =====
-- backend/internal/httpapi/server.go: the parameters of the public handlers (parseArticleQuery,
-- parseLimit, parseOffset, splitCSV, ProvinceByID of model/reference.go).
use Prim.Native.String.{String, [], ◌∷◌}
use afghanistan_news.Base.{
  ℕ, Bool, true, false, not, ◌&&◌, ◌||◌, Option, none, some, List, [], ◌∷◌, ltb, leb, ◌==◌, str_eq,
  any, select, map, length, if◌then◌else◌,
}
use afghanistan_news.Base.Text.{codes, split_on}
use afghanistan_news.Query.Filter.{ArticleQuery}

-- values.Get: the empty text for a missing value.
abbrev pub Values : Type 0
Values = String → String

-- What the parsers call: strings, strconv.Atoi (`none` for an error and for a negative number, which
-- every caller treats alike), time.Parse with RFC 3339, the ids of model.Provinces, and the statement of
-- CategoryExists, `none` where it fails.
pub record RequestLib : Type 0 where
  pub trim : String → String
  pub lower : String → String
  pub natural : String → Option ℕ
  pub parse_rfc3339 : String → Option ℕ
  pub provinces : List String
  pub category_exists : String → Option Bool

abbrev pub or_default : Option ℕ → ℕ → ℕ
or_default none def = def
or_default (some n) def = if n == 0 then def else if ltb 100 n then 100 else n

unfoldable pub parse_limit : RequestLib → String → ℕ → ℕ
parse_limit l raw def = if str_eq raw "" then def else or_default (l.natural raw) def

unfoldable pub parse_offset : RequestLib → String → ℕ
parse_offset l raw = elim (l.natural raw) [ none ↦ 0 | some n ↦ n ]

unfoldable pub split_csv : RequestLib → String → List String
split_csv l raw =
    if str_eq (l.trim raw) ""
    then []
    else select (λ v. not (str_eq v "")) (map l.trim (split_on 44 raw))

unfoldable pub is_province : RequestLib → String → Bool
is_province l id = any (λ p. str_eq p (l.lower (l.trim id))) l.provinces

abbrev pub all_lower : List ℕ → Bool
all_lower [] = true
all_lower (c ∷ cs) = leb 97 c && leb c 122 && all_lower cs

-- The expression ^[a-z]{2,3}$
unfoldable pub is_language_code : String → Bool
is_language_code s = all_lower (codes s) && (length (codes s) == 2 || length (codes s) == 3)

pub data ParamError : Type 0 where
  bad_sort bad_category bad_province bad_from bad_to bad_language category_failed : ParamError

pub data Parsed : Type 0 where
  query : ArticleQuery → Parsed
  refused : ParamError → Parsed

abbrev pub and_then : Parsed → (ArticleQuery → Parsed) → Parsed
and_then (query q) f = f q
and_then (refused e) f = refused e

unfoldable pub base_query : RequestLib → Values → ArticleQuery
unfolding parse_limit
base_query l v = record {
  digest = false;
  scope = v "scope";
  category = v "category";
  province = "";
  language = v "language";
  source = v "source";
  cluster = v "cluster";
  feed = v "feed";
  breaking = none;
  from = none;
  to = none;
  query = "";
  cursor = codes (v "cursor");
  limit = parse_limit l (v "limit") 30;
  offset = 0;
  sort = if str_eq (v "sort") "" then "latest" else v "sort";
  include_hidden = false;
}

unfoldable pub with_sort : ArticleQuery → Parsed
with_sort q = if str_eq q.sort "latest" || str_eq q.sort "top" then query q else refused bad_sort

abbrev pub known_category : Option Bool → ArticleQuery → Parsed
known_category none q = refused category_failed
known_category (some known) q = if known then query q else refused bad_category

abbrev pub from_time : Option ℕ → ArticleQuery → Parsed
from_time none q = refused bad_from
from_time (some t) q = query (record q { from = some t })

abbrev pub to_time : Option ℕ → ArticleQuery → Parsed
to_time none q = refused bad_to
to_time (some t) q = query (record q { to = some t })

unfoldable pub with_category : RequestLib → ArticleQuery → Parsed
with_category l q =
    if str_eq q.category "" then query q else known_category (l.category_exists q.category) q

unfoldable pub with_province : RequestLib → String → ArticleQuery → Parsed
unfolding is_province
with_province l p q =
    if str_eq p ""
    then query q
    else if is_province l p
    then query (record q { province = p })
    else refused bad_province

unfoldable pub with_breaking : String → ArticleQuery → Parsed
with_breaking br q =
    if str_eq br ""
    then query q
    else query (record q { breaking = some (str_eq br "true" || str_eq br "1") })

unfoldable pub with_from : RequestLib → String → ArticleQuery → Parsed
with_from l from q = if str_eq from "" then query q else from_time (l.parse_rfc3339 from) q

unfoldable pub with_to : RequestLib → String → ArticleQuery → Parsed
with_to l to q = if str_eq to "" then query q else to_time (l.parse_rfc3339 to) q

unfoldable pub with_language : ArticleQuery → Parsed
unfolding is_language_code
with_language q =
    if str_eq q.language ""
      || (str_eq q.language "mixed" || (str_eq q.language "unknown" || is_language_code q.language))
    then query q
    else refused bad_language

unfoldable pub parse_article_query : RequestLib → Values → Parsed
unfolding base_query with_sort with_category with_province with_breaking with_from with_to
    with_language
parse_article_query l v = and_then (with_sort (base_query l v)) λ q₁.
    and_then (with_category l q₁) λ q₂. and_then (with_province l (v "province") q₂) λ q₃.
      and_then (with_breaking (v "breaking") q₃) λ q₄.
        and_then (with_from l (v "from") q₄)
          λ q₅. and_then (with_to l (v "to") q₅) λ q₆. with_language q₆
