-- ===== src/Text/Canonical.antt =====
-- backend/internal/feed/normalize/normalize.go: CanonicalizeURL and extractGoogleNewsTarget. Texts are
-- lists of bytes; url.Parse, QueryEscape and the functions of strings on whole texts are the record
-- UrlLib.
use afghanistan_news.Base.{
  ℕ, zero, suc, String, Bool, not, ◌&&◌, ◌||◌, Option, none, some, List, [], ◌∷◌, ◌++◌, ◌==◌,
  select, any, if◌then◌else◌,
}
use afghanistan_news.Base.Text.{codes, is_prefix, contains}
use afghanistan_news.Query.Cursor.{Bytes}
use afghanistan_news.Api.Session.{bytes_eq}
use afghanistan_news.Text.UrlQuery.{parse_query}

-- A parsed URL: u.Host has the port, u.Hostname() has not.
pub record ParsedUrl : Type 0 where
  pub scheme : Bytes
  pub host : Bytes
  pub hostname : Bytes
  pub port : Bytes
  pub path : Bytes
  pub raw_query : Bytes

pub record UrlLib : Type 0 where
  pub parse : Bytes → Option ParsedUrl
  pub trim : Bytes → Bytes
  pub lower : Bytes → Bytes
  pub escape : Bytes → Bytes
  -- sort.Strings, on texts and on the keys of a query
  pub sort_texts : List Bytes → List Bytes
  pub sort_keys : List (Bytes × List Bytes) → List (Bytes × List Bytes)

unfoldable pub tracking_params : List String
tracking_params =
    "utm_source" ∷ "utm_medium" ∷ "utm_campaign" ∷ "utm_content" ∷ "utm_term" ∷ "utm_id"
    ∷ "utm_name" ∷ "utm_reader" ∷ "fbclid" ∷ "gclid" ∷ "gclsrc" ∷ "dclid" ∷ "msclkid" ∷ "mc_cid"
    ∷ "mc_eid" ∷ "igshid" ∷ "yclid" ∷ "_ga" ∷ "ref" ∷ "ref_src" ∷ "spm" ∷ "s_kwcid" ∷ []

unfoldable pub is_tracking : Bytes → Bool
unfolding tracking_params
is_tracking key = any (λ t. bytes_eq (codes t) key) tracking_params

-- strings.TrimPrefix
abbrev pub trim_prefix : Bytes → Bytes → Bytes
trim_prefix [] s = s
trim_prefix (p ∷ ps) [] = []
trim_prefix (p ∷ ps) (c ∷ s) =
    let rest = trim_prefix ps s in if is_prefix (p ∷ ps) (c ∷ s) then rest else c ∷ s

abbrev pub slash : ℕ
slash = 47

-- strings.ReplaceAll(path, "//", "/")
unfoldable pub single_slashes : Bytes → Bytes
single_slashes [] = []
single_slashes (c ∷ []) = c ∷ []
single_slashes (c ∷ (d ∷ s)) =
    let pair = c ∷ single_slashes s in
    let one = c ∷ single_slashes (d ∷ s) in if c == slash && d == slash then pair else one

-- strings.TrimSuffix(path, "/")
unfoldable pub trim_slash : Bytes → Bytes
trim_slash [] = []
trim_slash (c ∷ []) = if c == slash then [] else c ∷ []
trim_slash (c ∷ (d ∷ s)) = c ∷ trim_slash (d ∷ s)

unfoldable pub clean_path : Bytes → Bytes
unfolding single_slashes trim_slash
clean_path path =
    let single = single_slashes path in
    let trimmed = (if bytes_eq single (slash ∷ []) then single else trim_slash single) in
    elim trimmed [ [] ↦ slash ∷ [] | c ∷ s ↦ c ∷ s ]

unfoldable pub canonical_host : UrlLib → ParsedUrl → Bytes
canonical_host l u =
    let host = trim_prefix (codes "www.") (l.lower u.hostname) in
    let default_port =
      (bytes_eq u.scheme (codes "http") && bytes_eq u.port (codes "80"))
      || (bytes_eq u.scheme (codes "https") && bytes_eq u.port (codes "443")) in
    elim (u.port) [ [] ↦ host | c ∷ s ↦ if default_port then host else host ++ (58 ∷ (c ∷ s)) ]

-- key=value pairs, joined by &.
abbrev pub join_pairs : List Bytes → Bytes
join_pairs [] = []
join_pairs (p ∷ []) = p
join_pairs (p ∷ (q ∷ ps)) = p ++ (38 ∷ join_pairs (q ∷ ps))

unfoldable pub pairs_of : UrlLib → Bytes → List Bytes → List Bytes
pairs_of l key [] = []
pairs_of l key (v ∷ vs) = (l.escape key ++ (61 ∷ l.escape v)) ∷ pairs_of l key vs

unfoldable pub all_pairs : UrlLib → List (Bytes × List Bytes) → List Bytes
unfolding pairs_of
all_pairs l [] = []
all_pairs l ((key, values) ∷ rest) = pairs_of l key (l.sort_texts values) ++ all_pairs l rest

unfoldable pub clean_query : UrlLib → ParsedUrl → Bytes
unfolding all_pairs is_tracking parse_query
clean_query l u = join_pairs (
    all_pairs l (
      l.sort_keys (
        select (λ (p : Bytes × List Bytes). not (is_tracking (l.lower p.0)))
          (parse_query u.raw_query))))

unfoldable pub without_query : UrlLib → ParsedUrl → Bytes
unfolding canonical_host clean_path
without_query l u = codes "https://" ++ (canonical_host l u ++ clean_path u.path)

unfoldable pub canonical_form : UrlLib → ParsedUrl → Bytes
unfolding without_query clean_query
canonical_form l u = elim (clean_query l u) [
  | [] ↦ without_query l u
  | c ∷ q ↦ without_query l u ++ (63 ∷ (c ∷ q))
]

-- The query counts for the identity on some paths only.
unfoldable pub normalized_form : UrlLib → ParsedUrl → Bytes
unfolding canonical_form without_query
normalized_form l u =
    if contains (clean_path u.path) (codes "/story")
      || contains (clean_path u.path) (codes "/article")
    then canonical_form l u
    else without_query l u

-- q.Get(key): the empty text where there is no value.
unfoldable pub value_of : Bytes → List (Bytes × List Bytes) → Bytes
value_of key [] = []
value_of key ((k, vs) ∷ rest) =
    let later = value_of key rest in
    if bytes_eq k key then elim vs [ [] ↦ [] | v ∷ _ ↦ v ] else later

unfoldable pub google_target : ParsedUrl → Bytes
unfolding value_of parse_query
google_target u =
    if contains u.host (codes "news.google.com")
    then value_of (codes "url") (parse_query u.raw_query)
    else []

pub data Canonicalized : Type 0 where
  out_of_fuel url_error : Canonicalized
  forms : Bytes → Bytes → Canonicalized

abbrev pub is_web_scheme : Bytes → Bool
is_web_scheme s = bytes_eq s [] || bytes_eq s (codes "http") || bytes_eq s (codes "https")

-- The checks of a text before anything of it is used.
unfoldable pub checked : UrlLib → Bytes → Option ParsedUrl
checked l raw = elim (l.trim raw) [
  | [] ↦ none
  | c ∷ s ↦ elim (l.parse (c ∷ s)) [
    | none ↦ none
    | some u ↦ if is_web_scheme u.scheme && not (bytes_eq u.host []) then some u else none
  ]
]

unfoldable pub own_forms : UrlLib → ParsedUrl → Canonicalized
unfolding canonical_form normalized_form
own_forms l u = forms (normalized_form l u) (canonical_form l u)

-- The forms of a redirect's target, unless that is an error.
abbrev pub or_own : Canonicalized → Canonicalized → Canonicalized
or_own (forms n c) own = forms n c
or_own url_error own = own
or_own out_of_fuel own = out_of_fuel

-- CanonicalizeURL, with fuel for the redirects inside redirects.
unfoldable pub canonicalize : UrlLib → ℕ → Bytes → Canonicalized
unfolding checked google_target own_forms
canonicalize l zero raw = out_of_fuel
canonicalize l (suc fuel) raw = elim (checked l raw) [
  | none ↦ url_error
  | some u ↦ elim (google_target u) [
    | [] ↦ own_forms l u
    | c ∷ s ↦ or_own (canonicalize l fuel (c ∷ s)) (own_forms l u)
  ]
]
