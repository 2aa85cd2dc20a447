-- ===== src/Classify.antt =====
-- backend/internal/feed/classify/classify.go: Classify, DetectProvince and dedupeCategories. A
-- confidence is a number of hundredths.
pub mod Laws
use Prim.Native.String.{◌++◌ as ◌+++◌}
use afghanistan_news.Base.{
  ℕ, String, Bool, true, false, ◌||◌, ◌&&◌, Option, none, some, List, [], ◌∷◌, ◌++◌, ltb, leb, ◌==◌,
  str_eq, starts_with, if◌then◌else◌, find,
}
use afghanistan_news.Model.{Feed, Assignment, Origin, feed_category, rule}
use afghanistan_news.Fetch.Client.{mentions}

-- The compiled tables and the reference data: the expression of each province, the test of hasAny for
-- each topic, and the categories of a folder. `provinces` is the order in which Go walks the map.
pub record Classifier : Type 0 where
  pub provinces : List String
  pub names_province : String → String → Bool
  pub topic_rules : List (String × ℕ)
  pub has_any : String → String → Bool
  pub categories_for_folder : String → List String
  pub primary_category : String → String
  pub lower : String → String

-- One turn of the loop: a category seen before is replaced in its place by a surer one.
unfoldable pub add_category : Assignment → List Assignment → List Assignment
add_category c [] = c ∷ []
add_category c (o ∷ os) =
    let rest = add_category c os in
    if str_eq o.id c.id then (if ltb o.confidence c.confidence then c else o) ∷ os else o ∷ rest

unfoldable pub dedupe_into : List Assignment → List Assignment → List Assignment
unfolding add_category
dedupe_into out [] = out
dedupe_into out (c ∷ cs) = dedupe_into (add_category c out) cs

unfoldable pub dedupe_categories : List Assignment → List Assignment
dedupe_categories cs = dedupe_into [] cs

-- The weights in halves: 2 for a province named in the title, 1 in the rest.
unfoldable pub weigh : (String → Bool) → (String → Bool) → List String → List (String × ℕ)
weigh in_title in_body [] = []
weigh in_title in_body (id ∷ ids) =
    let rest = weigh in_title in_body ids in
    if in_title id then (id, 2) ∷ rest else if in_body id then (id, 1) ∷ rest else rest

pub record Best : Type 0 where
  pub id : String
  pub weight : ℕ
  pub tie : Bool

abbrev pub compare_weight : String → ℕ → Best → Best
compare_weight id w b =
    if ltb b.weight w
    then record { id = id; weight = w; tie = false }
    else if w == b.weight
    then record b { tie = true }
    else b

unfoldable pub heaviest : List (String × ℕ) → Best → Best
heaviest [] b = b
heaviest ((id, w) ∷ rest) b = heaviest rest (compare_weight id w b)

unfoldable pub verdict_of : Best → Option (String × ℕ)
verdict_of b = if b.tie || ltb b.weight 2 then none else some (b.id, 82)

unfoldable pub by_weight : (String → Bool) → (String → Bool) → List String → Option (String × ℕ)
unfolding weigh heaviest verdict_of
by_weight in_title in_body ids =
    verdict_of (heaviest (weigh in_title in_body ids) (record { id = ""; weight = 0; tie = false }))

abbrev pub or_weight : Option String → Option (String × ℕ) → Option (String × ℕ)
or_weight none w = w
or_weight (some id) w = some (id, 90)

abbrev pub scoped_province : Classifier → Feed → Option String
scoped_province c feed =
    if starts_with (c.lower feed.scope) "afghanistan-province"
    then find
        (λ id. c.names_province id feed.xml_url || mentions (c.lower feed.xml_url) ("/" +++ id))
        c.provinces
    else none

unfoldable pub detect_province : Classifier → Feed → String → String → String → Option (String × ℕ)
unfolding by_weight
detect_province c feed title summary link = or_weight (scoped_province c feed) (
    by_weight (λ id. c.names_province id title)
      (λ id. c.names_province id (summary +++ " " +++ link)) c.provinces)

abbrev pub from_folder : ℕ → List String → List Assignment
from_folder sure [] = []
from_folder sure (cat ∷ cats) =
    record { id = cat; confidence = sure; origin = feed_category } ∷ from_folder 70 cats

abbrev pub from_rules : Classifier → String → List (String × ℕ) → List Assignment
from_rules c text [] = []
from_rules c text ((cat, sure) ∷ rules) =
    let rest = from_rules c text rules in
    if c.has_any text cat
    then record { id = cat; confidence = sure; origin = rule } ∷ rest
    else rest

abbrev pub province_tags : Option (String × ℕ) → List Assignment
province_tags none = []
province_tags (some (id, sure)) = record { id = id; confidence = sure; origin = rule } ∷ []

abbrev pub or_primary : Classifier → String → List Assignment → List Assignment
or_primary c key (t ∷ ts) = t ∷ ts
or_primary c key [] =
    if str_eq key ""
    then []
    else record { id = c.primary_category key; confidence = 50; origin = feed_category } ∷ []

unfoldable pub classify :
    Classifier → Feed → String → String → String → List Assignment × List Assignment
unfolding dedupe_categories detect_province
classify c feed title summary link =
    let folder =
      if str_eq feed.category_key ""
      then []
      else from_folder 95 (c.categories_for_folder feed.category_key) in
    let topics = from_rules c (title +++ " " +++ summary) c.topic_rules in
    (
      or_primary c feed.category_key (dedupe_categories (folder ++ topics)),
      province_tags (detect_province c feed title summary link),
    )
