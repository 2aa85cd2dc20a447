-- ===== src/Text/CanonicalLaws.antt =====
-- backend/internal/feed/normalize/normalize.go: CanonicalizeURL ends, and what it takes for one URL.
use afghanistan_news.Base.{
  ℕ, zero, suc, ◌-◌, ◌≤◌, ◌<◌, Bool-cases, false, ◌||◌, some, [], ◌∷◌, ◌≡◌, ◌≢◌, refl, sym, ◌∙◌,
  inl, inr, length, Option-cases, arith,
}
use afghanistan_news.Base.Text.{codes, contains}
use afghanistan_news.Query.Cursor.{Bytes}
use afghanistan_news.Text.UrlQuery.{Groups, parse_query}
use afghanistan_news.Text.UrlQueryLaws.{ValuesFit, parse_query-ValuesFit}
use afghanistan_news.Text.Canonical.{
  ParsedUrl, UrlLib, value_of, clean_path, canonical_host, without_query, normalized_form,
  google_target, Canonicalized, out_of_fuel, url_error, forms, checked, own_forms, or_own,
  canonicalize,
}

-- The documented forms of what the code calls: the query of a URL is a part of its text, and
-- strings.TrimSpace makes no text longer.
pub record IsPlausible (l : UrlLib) : Type 0 where
  pub query_inside :
      (raw : Bytes) (u : ParsedUrl) → l.parse raw ≡ some u → length u.raw_query ≤ length raw
  pub trim_shortens : (raw : Bytes) → length (l.trim raw) ≤ length raw

value_of-fits : (n : ℕ) (key : Bytes) (g : Groups) → ValuesFit n g → length (value_of key g) ≤ n
unfolding value_of
value_of-fits n key [] h = omega arith
value_of-fits n key ((k, []) ∷ rest) h = ground (arith, value_of-fits n key rest h.1)
value_of-fits n key ((k, v ∷ vs) ∷ rest) h = ground (arith, h.0.0, value_of-fits n key rest h.1)

-- The target of a redirect is a value of the query.
target_fits : (u : ParsedUrl) → length (google_target u) ≤ length u.raw_query - 1
unfolding google_target
target_fits u = elim (Bool-cases (contains u.host (codes "news.google.com"))) [
  | inl e ↦ rw e (
      value_of-fits (length u.raw_query - 1) (codes "url") (parse_query u.raw_query)
        (parse_query-ValuesFit u.raw_query))
  | inr e ↦ rw e (omega arith)
]

parsed_text :
    (l : UrlLib) (raw t : Bytes) (u : ParsedUrl)
    → l.trim raw ≡ t
    → checked l raw ≡ some u
    → l.parse t ≡ some u
unfolding checked
parsed_text l raw [] u e h = absurd (ground (arith, e, h))
parsed_text l raw (c ∷ s) u e h = ground (arith, e, h)

length-pos : (s : Bytes) → s ≢ [] → 0 < length s
length-pos [] h = absurd (h refl)
length-pos (c ∷ s) h = omega arith

target_shorter :
    (l : UrlLib) (raw : Bytes) (u : ParsedUrl)
    → IsPlausible l
    → checked l raw ≡ some u
    → google_target u ≢ []
    → length (google_target u) < length raw
target_shorter l raw u plausible e some_target =
    let inside = plausible.query_inside (l.trim raw) u (parsed_text l raw (l.trim raw) u refl e) in
    omega (
      arith,
      target_fits u,
      inside,
      plausible.trim_shortens raw,
      length-pos (google_target u) some_target,
    )

own-ne-out : (l : UrlLib) (u : ParsedUrl) → own_forms l u ≢ out_of_fuel
unfolding own_forms
own-ne-out l u e = cc

or_own-ne-out :
    (a own : Canonicalized) → a ≢ out_of_fuel → own ≢ out_of_fuel → or_own a own ≢ out_of_fuel
or_own-ne-out (forms n c) own h k e = cc
or_own-ne-out url_error own h k e = k e
or_own-ne-out out_of_fuel own h k e = h refl

after_target :
    (l : UrlLib) (fuel : ℕ) (u : ParsedUrl) (target : Bytes)
    → (target ≢ [] → canonicalize l fuel target ≢ out_of_fuel)
    → elim target as (λ _. Canonicalized) [
      | [] ↦ own_forms l u
      | c ∷ s ↦ or_own (canonicalize l fuel (c ∷ s)) (own_forms l u)
    ]
      ≢ out_of_fuel
after_target l fuel u [] h = own-ne-out l u
after_target l fuel u (c ∷ s) h = or_own-ne-out _ _ (h (λ e. cc)) (own-ne-out l u)

-- However often a redirect of Google News holds another one in its query, the recursion of
-- CanonicalizeURL ends: it makes at most one call for each byte of the text and one more. Of the parser
-- of URLs only this is assumed, that a query is no longer than the URL, and that trimming makes no text
-- longer.
pub canonicalize-ne-out :
    (l : UrlLib) (fuel : ℕ) (raw : Bytes)
    → IsPlausible l
    → length raw < fuel
    → canonicalize l fuel raw ≢ out_of_fuel
unfolding canonicalize
canonicalize-ne-out l zero raw plausible enough = absurd (omega arith)
canonicalize-ne-out l (suc fuel) raw plausible enough = elim (Option-cases (checked l raw)) [
  | inl n ↦ rw (n, canonicalize) (λ e. cc)
  | inr (u, e) ↦
      rw (e, canonicalize)
        (after_target l fuel u (google_target u) λ some_target.
          canonicalize-ne-out l fuel (google_target u) plausible
            (omega (arith, target_shorter l raw u plausible e some_target)))
]

-- Two URLs with the same scheme, host, port and path, and with any queries.
pub record SameButQuery (u v : ParsedUrl) : Type 0 where
  pub scheme : u.scheme ≡ v.scheme
  pub hostname : u.hostname ≡ v.hostname
  pub port : u.port ≡ v.port
  pub path : u.path ≡ v.path

same_base :
    (l : UrlLib) (u v : ParsedUrl) → SameButQuery u v → without_query l u ≡ without_query l v
unfolding without_query canonical_host
same_base l u v h = λ i.
    without_query l
      (record u { scheme = h.scheme i; hostname = h.hostname i; port = h.port i; path = h.path i })

plain :
    (l : UrlLib) (u : ParsedUrl)
    → (contains (clean_path u.path) (codes "/story")
        || contains (clean_path u.path) (codes "/article"))
      ≡ false
    → normalized_form l u ≡ without_query l u
unfolding normalized_form
plain l u h = rw (h, normalized_form) refl

own_result :
    (l : UrlLib) (fuel : ℕ) (raw : Bytes) (u : ParsedUrl) (n c : Bytes)
    → checked l raw ≡ some u
    → google_target u ≡ []
    → canonicalize l (suc fuel) raw ≡ forms n c
    → n ≡ normalized_form l u
unfolding canonicalize own_forms
own_result l fuel raw u n c e t h = ground (arith, e, t, h)

-- Two URLs that are no redirects, differ in their queries only, and have neither /story nor /article in
-- their paths, get the same normalized form: searches for two different things are one URL to it.
pub queries_collapse :
    (l : UrlLib) (f g : ℕ) (raw raw' : Bytes) (u v : ParsedUrl) (n c n' c' : Bytes)
    → checked l raw ≡ some u
    → checked l raw' ≡ some v
    → google_target u ≡ []
    → google_target v ≡ []
    → SameButQuery u v
    → (contains (clean_path u.path) (codes "/story")
        || contains (clean_path u.path) (codes "/article"))
      ≡ false
    → canonicalize l (suc f) raw ≡ forms n c
    → canonicalize l (suc g) raw' ≡ forms n' c'
    → n ≡ n'
queries_collapse l f g raw raw' u v n c n' c' e e' t t' same path h h' =
    own_result l f raw u n c e t h
    ∙ plain l u path
    ∙ same_base l u v same
    ∙ sym (plain l v (rw same.path at path))
    ∙ sym (own_result l g raw' v n' c' e' t' h')
