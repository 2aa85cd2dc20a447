-- ===== src/Articles/DedupLaws.antt =====
-- Deduplication (backend/internal/store/articles.go): what a duplicate is, which level can answer,
-- and when a level is silent.
use mathlib.Core.Path.{subst}
use afghanistan_news.Base.{
  ℕ, ◌≡◌, ◌≢◌, refl, ◌⊎◌, inl, inr, Bool-cases, Option-cases, String, Bool, true, ◌&&◌, Option,
  none, some, List, [], ◌∷◌, ◌++◌, arith, eq_iff, if◌then◌else◌, find, All,
}
use afghanistan_news.Articles.Rows.{ArticleInput, Article}
use afghanistan_news.Articles.Dedup.{
  Level, guid, url, content_hash, title_window, race, or_next, by_guid, by_url, by_hash, by_title,
  search, some_text, find_duplicate_article,
}

-- What the answer of a level says of a row.
abbrev pub Matches : ArticleInput → ℕ → Level → Article → Type 0
Matches x since guid a = by_guid x.feed_id x.external_guid a ≡ true
Matches x since url a = (by_url x.normalized_url a ≡ true) ⊎ (by_url x.canonical_url a ≡ true)
Matches x since content_hash a = by_hash x.content_hash a ≡ true
Matches x since title_window a = by_title x.title_fingerprint since a ≡ true
Matches x since race a = ⊥

abbrev pub duplicate_of : ArticleInput → ℕ → List Article → Option (String × Level)
duplicate_of x since rows =
    find_duplicate_article x.feed_id x.external_guid x.normalized_url x.canonical_url x.content_hash
      x.title_fingerprint since rows

-- A row of the table with a property.
abbrev pub Has : (Article → Type 0) → List Article → Type 0
Has P [] = ⊥
Has P (a ∷ as') = P a ⊎ Has P as'

find-Has :
    (p : Article → Bool) (P : Article → Type 0) (rows : List Article) (a : Article)
    → ((r : Article) → p r ≡ true → P r)
    → find p rows ≡ some a
    → Has (λ r. (r.id ≡ a.id) × P r) rows
find-Has p P [] a f h = cc
find-Has p P (r ∷ rs) a f h = elim (Bool-cases (p r)) [
  | inl e ↦ inl (ground arith, f r e)
  | inr e ↦ inr (find-Has p P rs a f (ground arith))
]

search-Has :
    (asked : Bool) (l l' : Level) (p : Article → Bool) (P : Article → Type 0) (rows : List Article)
    (id : String)
    → ((r : Article) → p r ≡ true → P r)
    → search asked l p rows ≡ some (id, l')
    → (l ≡ l') × Has (λ r. (r.id ≡ id) × P r) rows
search-Has asked l l' p P rows id f h = elim (Option-cases (find p rows)) [
  | inl e ↦ ground arith
  | inr (a, e) ↦
      let same : a.id ≡ id = ground arith in
      (ground arith, subst (λ i. Has (λ r. (r.id ≡ i) × P r) rows) same (find-Has p P rows a f e))
]

find_app :
    (p : Article → Bool) (rows : List Article) (r : Article)
    → find p rows ≡ none
    → find p (rows ++ r ∷ []) ≡ (if p r then some r else none)
find_app p [] r h = refl
find_app p (x ∷ xs) r h = ground (arith, find_app p xs r)

pub search_app :
    (asked : Bool) (l : Level) (p : Article → Bool) (rows : List Article) (r : Article)
    → search asked l p rows ≡ none
    → search asked l p (rows ++ r ∷ []) ≡ (if asked && p r then some (r.id, l) else none)
search_app asked l p rows r h = elim (Option-cases (find p rows)) [
  | inl e ↦ ground (arith, find_app p rows r e)
  | inr (a, e) ↦ ground arith
]

or_next_cases :
    (a b : Option (String × Level)) {v : String × Level}
    → or_next a b ≡ some v
    → (a ≡ some v) ⊎ ((a ≡ none) × (b ≡ some v))
or_next_cases none b h = inr (refl, h)
or_next_cases (some u) b h = inl h

or_next-none : (a b : Option (String × Level)) → or_next a b ≡ none → (a ≡ none) × (b ≡ none)
or_next-none none b h = (refl, h)
or_next-none (some u) b h = absurd (cc)

module _ (x : ArticleInput) (since : ℕ) (rows : List Article) where
  -- The row that an answer names.
  abbrev pub Found : String → Level → Type 0
  Found id l = Has (λ r. (r.id ≡ id) × Matches x since l r) rows

  from_search :
      (asked : Bool) (l l' : Level) (p : Article → Bool) (id : String)
      → ((r : Article) → p r ≡ true → Matches x since l r)
      → search asked l p rows ≡ some (id, l')
      → Found id l'
  from_search asked l l' p id f h =
      let (same, found) = search-Has asked l l' p (Matches x since l) rows id f h in
      subst (Found id) same found

  -- The five searches, and what comes behind each.
  abbrev first : Option (String × Level)
  first =
      search (some_text x.external_guid && some_text x.feed_id) guid
        (by_guid x.feed_id x.external_guid) rows

  abbrev second : Option (String × Level)
  second = search (some_text x.normalized_url) url (by_url x.normalized_url) rows

  abbrev third : Option (String × Level)
  third = search (some_text x.canonical_url) url (by_url x.canonical_url) rows

  abbrev fourth : Option (String × Level)
  fourth = search (some_text x.content_hash) content_hash (by_hash x.content_hash) rows

  abbrev fifth : Option (String × Level)
  fifth =
      search (some_text x.title_fingerprint) title_window (by_title x.title_fingerprint since) rows

  -- A duplicate that is reported is a row of the table: it has the reported id, and it matches the
  -- article at the reported level.
  pub duplicate_sound :
      (id : String) (l : Level) → duplicate_of x since rows ≡ some (id, l) → Found id l
  unfolding find_duplicate_article
  duplicate_sound id l h =
      elim (or_next_cases first (or_next second (or_next third (or_next fourth fifth))) h) [
        | inl g ↦ from_search _ guid l _ id (λ r e. e) g
        | inr (_, h1) ↦ elim (or_next_cases second (or_next third (or_next fourth fifth)) h1) [
          | inl g ↦ from_search _ url l _ id (λ r e. inl e) g
          | inr (_, h2) ↦ elim (or_next_cases third (or_next fourth fifth) h2) [
            | inl g ↦ from_search _ url l _ id (λ r e. inr e) g
            | inr (_, h3) ↦ elim (or_next_cases fourth fifth h3) [
              | inl g ↦ from_search _ content_hash l _ id (λ r e. e) g
              | inr (_, g) ↦ from_search _ title_window l _ id (λ r e. e) g
            ]
          ]
        ]
      ]

  pub duplicate_none : duplicate_of x since rows ≡ none → (first ≡ none) × (second ≡ none)
  unfolding find_duplicate_article
  duplicate_none h =
      let (a, h1) = or_next-none first (or_next second (or_next third (or_next fourth fifth))) h in
      let (b, h2) = or_next-none second (or_next third (or_next fourth fifth)) h1 in (a, b)

Has-absurd :
    (P Q : Article → Type 0) (rows : List Article)
    → ((r : Article) → Q r → ¬ P r)
    → All Q rows
    → ¬ Has P rows
Has-absurd P Q [] f q h = h
Has-absurd P Q (r ∷ rs) f q (inl h) = f r q.0 h
Has-absurd P Q (r ∷ rs) f q (inr h) = Has-absurd P Q rs f q.1 h

-- The title level never answers while no stored normalized title is spelled like the fingerprint
-- that it is compared with, however many stored titles are the article's own.
pub title_level_dead :
    (x : ArticleInput) (since : ℕ) (rows : List Article) (id : String) (l : Level)
    → All (λ (r : Article). r.normalized_title ≢ x.title_fingerprint) rows
    → duplicate_of x since rows ≡ some (id, l)
    → l ≢ title_window
title_level_dead x since rows id l strange h e =
    Has-absurd (λ r. (r.id ≡ id) × Matches x since title_window r)
      (λ r. r.normalized_title ≢ x.title_fingerprint) rows
      (λ r ne m. ne (ground (arith, eq_iff r.normalized_title x.title_fingerprint))) strange
      (subst (Found x since rows id) e (duplicate_sound x since rows id l h))
