-- ===== src/Api/RelatedLaws.antt =====
-- backend/internal/httpapi/related.go: the stories that are offered beside an article.
use afghanistan_news.Base.{
  ℕ, zero, suc, ◌+◌, ◌≤◌, Bool, true, false, ◌||◌, Option, none, some, List, [], ◌∷◌, ◌++◌, String,
  ◌≡◌, refl, sym, ap, ◌∙◌, inl, inr, All, leb, str_eq, find, take, length, length-take, Bool-cases,
  arith, if◌then◌else◌,
}
use afghanistan_news.Base.Keyset.{All-append}
use afghanistan_news.Base.Sorting.{All-take}
use afghanistan_news.Articles.Rows.{Article}
use afghanistan_news.Query.Page.{query_articles}
use afghanistan_news.Api.Public.{Values}
use afghanistan_news.Api.Pages.{Site}
use afghanistan_news.Api.Related.{
  is_seen, ids, add_new, add_until, same_cluster, same_category, primary_category, Page, new_rows,
  of_cluster, topic_rows, of_category, cut_at, and_topic, related_answer, related_to, from_cluster,
  with_topic, related_articles, handle_related_articles,
}
use afghanistan_news.Api.PagesLaws.{card_answer-ShowsActive, ShowsActive}
use afghanistan_news.Query.ActiveLaws.{IsActive, PageActive, query_articles-IsActive}

-- Articles whose ids differ from each other and from those seen before.
abbrev pub NewTo : List String → List Article → Type 0
NewTo seen [] = Unit {0}
NewTo seen (a ∷ arts) = (is_seen a.id seen ≡ false) × NewTo (a.id ∷ seen) arts

-- New and active.
abbrev pub Offered : List String → List Article → Type 0
Offered seen arts = NewTo seen arts × All IsActive arts

add_new-Offered :
    (arts : List Article) (seen : List String)
    → All IsActive arts
    → Offered seen (add_new arts seen)
unfolding add_new
add_new-Offered [] seen h = (tt, tt)
add_new-Offered (a ∷ arts) seen h = elim (Bool-cases (is_seen a.id seen)) [
  | inl e ↦ rw e (add_new-Offered arts seen h.1)
  | inr e ↦ (let rest = add_new-Offered arts (a.id ∷ seen) h.1 in rw e ((e, rest.0), (h.0, rest.1)))
]

add_until-Offered :
    (limit : ℕ) (arts : List Article) (seen : List String) (n : ℕ)
    → All IsActive arts
    → Offered seen (add_until limit arts seen n)
unfolding add_until
add_until-Offered limit [] seen n h = (tt, tt)
add_until-Offered limit (a ∷ arts) seen n h = elim (Bool-cases (is_seen a.id seen)) [
  | inl e ↦ rw e (add_until-Offered limit arts seen n h.1)
  | inr e ↦ elim (Bool-cases (leb limit (suc n))) [
    | inl full ↦ rw (e, full) ((e, tt), (h.0, tt))
    | inr room ↦
        (let rest = add_until-Offered limit arts (a.id ∷ seen) (suc n) h.1 in
          rw (e, room) ((e, rest.0), (h.0, rest.1)))
  ]
]

-- The order of what was seen does not matter.
NewTo-same :
    (arts : List Article) (seen seen' : List String)
    → ((id : String) → is_seen id seen ≡ is_seen id seen')
    → NewTo seen arts
    → NewTo seen' arts
NewTo-same [] seen seen' same h = tt
NewTo-same (a ∷ arts) seen seen' same h = (
  sym (same a.id) ∙ h.0,
  NewTo-same arts (a.id ∷ seen) (a.id ∷ seen') (λ id. ap (λ b. str_eq a.id id || b) (same id)) h.1,
)

seen_move :
    (x : String) (xs seen : List String) (id : String)
    → is_seen id (x ∷ (xs ++ seen)) ≡ is_seen id (xs ++ (x ∷ seen))
seen_move x [] seen id = refl
seen_move x (y ∷ ys) seen id = ground (arith, seen_move x ys seen id)

NewTo-append :
    (xs ys : List Article) (seen : List String)
    → NewTo seen xs
    → NewTo (ids xs ++ seen) ys
    → NewTo seen (xs ++ ys)
NewTo-append [] ys seen h k = k
NewTo-append (x ∷ xs) ys seen h k =
    (h.0, NewTo-append xs ys (x.id ∷ seen) h.1 (NewTo-same ys _ _ (seen_move x.id (ids xs) seen) k))

NewTo-take :
    (n : ℕ) (xs : List Article) (seen : List String) → NewTo seen xs → NewTo seen (take n xs)
NewTo-take zero xs seen h = tt
NewTo-take (suc n) [] seen h = tt
NewTo-take (suc n) (x ∷ xs) seen h = (h.0, NewTo-take n xs (x.id ∷ seen) h.1)

-- A list that is offered beside the article, if there is one.
abbrev OptionOffered : Article → Option (List Article) → Type 0
OptionOffered article none = Unit {0}
OptionOffered article (some arts) = Offered (article.id ∷ []) arts

new_rows-Offered :
    (article : Article) (page : Page)
    → PageActive page
    → OptionOffered article (new_rows article page)
new_rows-Offered article none h = tt
new_rows-Offered article (some (rows, next)) h = add_new-Offered rows (article.id ∷ []) h

OptionOffered-if :
    (article : Article) (b : Bool) (m n : Option (List Article))
    → OptionOffered article m
    → OptionOffered article n
    → OptionOffered article (if b then m else n)
OptionOffered-if article true m n h k = h
OptionOffered-if article false m n h k = k

of_cluster-Offered :
    (s : Site) (article : Article) (limit : ℕ) (o : Option String)
    → OptionOffered article (of_cluster s article limit o)
of_cluster-Offered s article limit none = (tt, tt)
of_cluster-Offered s article limit (some cluster) =
    OptionOffered-if article (str_eq cluster "") (some []) _ (tt, tt)
      (new_rows-Offered article (query_articles s.codec s.db (same_cluster cluster limit))
        (query_articles-IsActive s.codec s.db (same_cluster cluster limit) refl))

topic_rows-Offered :
    (article : Article) (limit : ℕ) (out : List Article) (page : Page)
    → Offered (article.id ∷ []) out
    → PageActive page
    → OptionOffered article (topic_rows article limit out page)
topic_rows-Offered article limit out none h k = tt
topic_rows-Offered article limit out (some (rows, next)) h k =
    let more = add_until-Offered limit rows (ids out ++ (article.id ∷ [])) (length out) k in
    (NewTo-append out _ (article.id ∷ []) h.0 more.0, All-append IsActive out _ h.1 more.1)

of_category-Offered :
    (s : Site) (article : Article) (limit : ℕ) (out : List Article) (o : Option String)
    → Offered (article.id ∷ []) out
    → OptionOffered article (of_category s article limit out o)
of_category-Offered s article limit out none h = h
of_category-Offered s article limit out (some category) h =
    let asked = same_category category (limit + length out) in
    OptionOffered-if article (str_eq category "") (some out) _ h (
      topic_rows-Offered article limit out (query_articles s.codec s.db asked) h
        (query_articles-IsActive s.codec s.db asked refl))

with_topic-Offered :
    (s : Site) (article : Article) (limit : ℕ) (out : List Article)
    → Offered (article.id ∷ []) out
    → OptionOffered article (with_topic s article limit out)
unfolding with_topic
with_topic-Offered s article limit out h =
    OptionOffered-if article (leb limit (length out)) (some out) _ h
      (of_category-Offered s article limit out (primary_category article.id s.db.rows.categories) h)

-- Offered, and not more than the limit.
abbrev pub OptionWithin : Article → ℕ → Option (List Article) → Type 0
OptionWithin article limit none = Unit {0}
OptionWithin article limit (some arts) = Offered (article.id ∷ []) arts × (length arts ≤ limit)

cut_at-Within :
    (article : Article) (limit : ℕ) (o : Option (List Article))
    → OptionOffered article o
    → OptionWithin article limit (cut_at limit o)
cut_at-Within article limit none h = tt
cut_at-Within article limit (some all) h = (
  (NewTo-take limit all (article.id ∷ []) h.0, All-take IsActive limit all h.1),
  omega (arith, length-take limit all),
)

and_topic-Within :
    (s : Site) (article : Article) (limit : ℕ) (o : Option (List Article))
    → OptionOffered article o
    → OptionWithin article limit (and_topic s article limit o)
and_topic-Within s article limit none h = tt
and_topic-Within s article limit (some out) h =
    cut_at-Within article limit (with_topic s article limit out)
      (with_topic-Offered s article limit out h)

-- Where the queries succeed, the stories offered beside an article are active, differ from each other
-- and from the article, and are not more than were asked for, whether they come from its cluster, its
-- category or both.
pub related_articles-Within :
    (s : Site) (article : Article) (limit : ℕ)
    → OptionWithin article limit (related_articles s article limit)
unfolding related_articles from_cluster
related_articles-Within s article limit =
    and_topic-Within s article limit _ (of_cluster-Offered s article limit article.cluster_id)

related_answer-ShowsActive :
    (s : Site) (article : Article) (limit : ℕ) (o : Option (List Article))
    → OptionWithin article limit o
    → ShowsActive (related_answer s o)
related_answer-ShowsActive s article limit none h = tt
related_answer-ShowsActive s article limit (some all) h =
    card_answer-ShowsActive s.hydrates (λ cards. cards) [] all (λ cards k. k) h.0.1

related_to-ShowsActive :
    (s : Site) (o : Option Article) (v : Values) → ShowsActive (related_to s o v)
unfolding related_to
related_to-ShowsActive s none v = tt
related_to-ShowsActive s (some article) v =
    related_answer-ShowsActive s article _ _ (related_articles-Within s article _)

pub related-ShowsActive :
    (s : Site) (id : String) (v : Values) → ShowsActive (handle_related_articles s id v)
unfolding handle_related_articles
related-ShowsActive s id v =
    related_to-ShowsActive s (find (λ (a : Article). str_eq a.id id) s.db.rows.articles) v
