-- ===== src/Classify/Laws.antt =====
-- What the classifier promises (backend/internal/feed/classify/classify.go).
use afghanistan_news.Base.{
  ℕ, suc, ◌<◌, ◌≡◌, refl, String, Bool, true, false, not, ◌&&◌, ◌||◌, Option, none, some, List, [],
  ◌∷◌, arith, max, str_eq, eq_iff, if◌then◌else◌, any, select, count_where,
}
use afghanistan_news.Model.{Assignment}
use afghanistan_news.Classify.{
  add_category, dedupe_into, dedupe_categories, weigh, heaviest, verdict_of, by_weight,
}

-- The only province of a list, if it has exactly one.
abbrev pub sole : List String → Option (String × ℕ)
sole [] = none
sole (id ∷ []) = some (id, 82)
sole (id ∷ (id' ∷ rest)) = none

abbrev none_left : String → List String → Option (String × ℕ)
none_left id [] = some (id, 82)
none_left id (id' ∷ rest) = none

tied :
    (p q : String → Bool) (ids : List String) (id : String)
    → verdict_of (heaviest (weigh p q ids) (record { id = id; weight = 2; tie = true })) ≡ none
unfolding weigh heaviest verdict_of
tied p q [] id = refl
tied p q (i ∷ ids) id = ground (arith, tied p q ids id)

leading :
    (p q : String → Bool) (ids : List String) (id : String)
    → verdict_of (heaviest (weigh p q ids) (record { id = id; weight = 2; tie = false }))
      ≡ none_left id (select p ids)
unfolding weigh heaviest verdict_of
leading p q [] id = refl
leading p q (i ∷ ids) id = ground (arith, leading p q ids id, tied p q ids id)

sole-cons : (id : String) (ids : List String) → sole (id ∷ ids) ≡ none_left id ids
sole-cons id [] = refl
sole-cons id (i ∷ ids) = refl

open_race :
    (p q : String → Bool) (ids : List String) (id : String) (w : ℕ) (tie : Bool)
    → w < 2
    → verdict_of (heaviest (weigh p q ids) (record { id = id; weight = w; tie = tie }))
      ≡ sole (select p ids)
unfolding weigh heaviest verdict_of
open_race p q [] id w tie h = ground arith
open_race p q (i ∷ ids) id w tie h = ground (
  arith,
  leading p q ids i,
  sole-cons i (select p ids),
  open_race p q ids i 1 false (omega arith),
  open_race p q ids id 1 true (omega arith),
  open_race p q ids id w tie h,
)

-- Without a scope, the province of an article is the one named in its title, at a confidence of
-- 0.82, where the title names exactly one, whatever else its text names and in whatever order the
-- provinces are tried; else it has none.
pub province_sole :
    (in_title in_body : String → Bool) (ids : List String)
    → by_weight in_title in_body ids ≡ sole (select in_title ids)
unfolding by_weight
province_sole in_title in_body ids = open_race in_title in_body ids "" 0 false (omega arith)

abbrev pub tagged : String → List Assignment → ℕ
tagged id = count_where (λ (a : Assignment). str_eq a.id id)

-- The highest confidence of a category in a list, 0 where it is not there.
abbrev pub surest : String → List Assignment → ℕ
surest id [] = 0
surest id (a ∷ rest) = let m = surest id rest in if str_eq a.id id then max a.confidence m else m

tagged-add :
    (id : String) (c : Assignment) (out : List Assignment)
    → tagged id (add_category c out) ≡ (
        if str_eq c.id id && not (any (λ (a : Assignment). str_eq a.id id) out)
        then suc (tagged id out)
        else tagged id out)
unfolding add_category
tagged-add id c [] = ground arith
tagged-add id c (o ∷ os) =
    ground (arith, tagged-add id c os, eq_iff o.id c.id, eq_iff o.id id, eq_iff c.id id)

abbrev pub has_tag : String → List Assignment → Bool
has_tag id = any (λ (a : Assignment). str_eq a.id id)

has_tag-add :
    (id : String) (c : Assignment) (out : List Assignment)
    → has_tag id (add_category c out) ≡ (str_eq c.id id || has_tag id out)
unfolding add_category
has_tag-add id c [] = ground arith
has_tag-add id c (o ∷ os) =
    ground (arith, has_tag-add id c os, eq_iff o.id c.id, eq_iff o.id id, eq_iff c.id id)

surest-add :
    (id : String) (c : Assignment) (out : List Assignment)
    → surest id (add_category c out)
      ≡ (if str_eq c.id id then max c.confidence (surest id out) else surest id out)
unfolding add_category
surest-add id c [] = ground arith
surest-add id c (o ∷ os) =
    ground (arith, surest-add id c os, eq_iff o.id c.id, eq_iff o.id id, eq_iff c.id id)

tagged-into :
    (id : String) (out cs : List Assignment)
    → tagged id out ≡ (if has_tag id out then 1 else 0)
    → tagged id (dedupe_into out cs) ≡ (if has_tag id out || has_tag id cs then 1 else 0)
unfolding dedupe_into
tagged-into id out [] h = ground (arith, h)
tagged-into id out (c ∷ cs) h =
    let once : tagged id (add_category c out) ≡ (if has_tag id (add_category c out) then 1 else 0) =
      ground (arith, tagged-add id c out, has_tag-add id c out, h) in
    ground (arith, tagged-into id (add_category c out) cs once, has_tag-add id c out)

surest-into :
    (id : String) (out cs : List Assignment)
    → surest id (dedupe_into out cs) ≡ max (surest id out) (surest id cs)
unfolding dedupe_into
surest-into id out [] = omega arith
surest-into id out (c ∷ cs) =
    ground (arith, surest-into id (add_category c out) cs, surest-add id c out)

-- dedupeCategories keeps each category exactly once, with the highest confidence that it had.
pub dedupe_categories-surest :
    (id : String) (cs : List Assignment)
    → (tagged id (dedupe_categories cs) ≡ (if has_tag id cs then 1 else 0))
      × (surest id (dedupe_categories cs) ≡ surest id cs)
unfolding dedupe_categories
dedupe_categories-surest id cs = (tagged-into id [] cs refl, omega (arith, surest-into id [] cs))
