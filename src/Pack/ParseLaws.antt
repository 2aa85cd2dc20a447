-- ===== src/Pack/ParseLaws.antt =====
-- backend/internal/feed/opml/opml.go: what Parse guarantees of the feeds of a pack.
use afghanistan_news.Base.{
  suc, String, Bool, true, false, not, none, some, List, [], ◌∷◌, ◌++◌, ◌≡◌, ◌≢◌, refl, ap, ◌∙◌,
  inl, inr, str_eq, eq_refl, is_some, select, count_where, count_where-append, All, Bool-cases,
  Option-cases, arith,
}
use afghanistan_news.Base.Maps.{get, put, get-put}
use afghanistan_news.Base.Keyset.{Pairwise, All-imp}
use afghanistan_news.Pack.Outline.{
  Reading, UrlParts, XmlOutline, outline, XmlOutlines, no_outlines, and_then, Invalid,
  duplicate_url, Outline, first_non_empty, is_web, outline_error, clean_html, validate_outline,
}
use afghanistan_news.Pack.Parse.{
  Walk, new_outline, folder_key_of, reject, place, add_outline, is_feed, walk, walk_one,
  parse_outlines, valid_feeds,
}

module _ {A : Type 0} where
  All-snoc : (P : A → Type 0) (xs : List A) (y : A) → All P xs → P y → All P (xs ++ (y ∷ []))
  All-snoc P [] y h p = (p, tt)
  All-snoc P (x ∷ xs) y h p = (h.0, All-snoc P xs y h.1 p)

  Pairwise-snoc :
      (R : A → A → Type 0) (xs : List A) (y : A)
      → Pairwise R xs
      → All (λ x. R x y) xs
      → Pairwise R (xs ++ (y ∷ []))
  Pairwise-snoc R [] y h p = (tt, tt)
  Pairwise-snoc R (x ∷ xs) y h p = (All-snoc (R x) xs y h.0 p.0, Pairwise-snoc R xs y h.1 p.1)

abbrev pub passes : Outline → Bool
passes o = not (is_some o.invalid)

abbrev pub has_error : Outline → Bool
has_error o = is_some o.invalid

is_none : (o : Outline) → o.invalid ≡ none → is_some o.invalid ≡ false
is_none o n = ap is_some n

is_error : (o : Outline) (e : Invalid) → o.invalid ≡ some e → is_some o.invalid ≡ true
is_error o e s = ap is_some s

module _ (r : Reading) where
  abbrev pub key_of : Outline → String
  key_of o = r.feed_url_key o.xml_url

  -- A feed of the web: its URL can be read, with the scheme http or https and a host, and it has a
  -- title.
  pub record IsWebFeed (o : Outline) : Type 0 where
    pub parts : UrlParts
    pub read : r.parse_url o.xml_url ≡ some parts
    pub web : is_web (r.lower parts.scheme) ≡ true
    pub hosted : str_eq parts.host "" ≡ false
    pub titled : str_eq (r.trim o.title) "" ≡ false

  abbrev pub DistinctUrls : Outline → Outline → Type 0
  DistinctUrls o p = r.feed_url_key o.xml_url ≢ r.feed_url_key p.xml_url

  abbrev pub IfValid : Outline → Type 0 → Type 0
  IfValid o P = o.invalid ≡ none → P

  pub record IsRead (w : Walk) : Type 0 where
    pub known : All (λ o. IfValid o (is_some (get w.seen (key_of o)) ≡ true)) w.outlines
    pub apart : Pairwise (λ o p. IfValid o (IfValid p (DistinctUrls o p))) w.outlines
    pub web : All (λ o. IfValid o (IsWebFeed o)) w.outlines
    pub counted : count_where (λ (o : Outline). is_some o.invalid) w.outlines ≡ w.errors

  outline_error-IsWebFeed : (o : Outline) → outline_error r o ≡ none → IsWebFeed o
  unfolding outline_error
  outline_error-IsWebFeed o h = elim (Option-cases (r.parse_url o.xml_url)) [
    | inl n ↦ ground arith
    | inr (u, e) ↦ record {
      parts = u;
      read = e;
      web = ground arith;
      hosted = ground arith;
      titled = ground arith;
    }
  ]

  reject-IsRead : (o : Outline) (e : Invalid) (w : Walk) → IsRead w → IsRead (reject o e w)
  unfolding reject
  reject-IsRead o e w h = record {
    known = All-snoc _ w.outlines _ h.known (λ v. cc);
    apart = Pairwise-snoc _ w.outlines _ h.apart (All-imp w.outlines (λ x k u v. cc) h.known);
    web = All-snoc _ w.outlines _ h.web (λ v. cc);
    counted =
        count_where-append (λ (x : Outline). is_some x.invalid) w.outlines
          (record o { invalid = some e } ∷ [])
        ∙ omega (arith, h.counted);
  }

  -- The outline as it is kept where it is valid.
  abbrev kept : Outline → Outline
  kept o = record o { html_url = clean_html r o.html_url }

  put_kept :
      (w : Walk) (k t : String) (o : Outline)
      → IfValid o (is_some (get w.seen (key_of o)) ≡ true)
      → IfValid o (is_some (get (put w.seen k t) (key_of o)) ≡ true)
  put_kept w k t o h v = ground (arith, h v, get-put w.seen k (key_of o) t)

  fresh_apart :
      (w : Walk) (k : String) (o : Outline)
      → get w.seen k ≡ none
      → IfValid o (is_some (get w.seen (key_of o)) ≡ true)
      → IfValid o (r.feed_url_key o.xml_url ≢ k)
  fresh_apart w k o n h v e = cc (h v, n)

  add_valid-IsRead :
      (o : Outline) (w : Walk)
      → o.invalid ≡ none
      → IsWebFeed o
      → get w.seen (key_of o) ≡ none
      → IsRead w
      → IsRead
          (record w { outlines = w.outlines ++ (o ∷ []); seen = put w.seen (key_of o) o.title })
  add_valid-IsRead o w fresh good n h = record {
    known =
        All-snoc _ w.outlines o (All-imp w.outlines (put_kept w (key_of o) o.title) h.known)
          (λ v. ground (arith, get-put w.seen (key_of o) (key_of o) o.title, eq_refl (key_of o)));
    apart =
        Pairwise-snoc _ w.outlines o h.apart
          (All-imp w.outlines (λ x k u v. fresh_apart w (key_of o) x n k u) h.known);
    web = All-snoc _ w.outlines o h.web (λ v. good);
    counted =
        count_where-append (λ (x : Outline). is_some x.invalid) w.outlines (o ∷ [])
        ∙ ground (arith, h.counted, fresh);
  }

  kept-IsWebFeed : (o : Outline) → IsWebFeed o → IsWebFeed (kept o)
  kept-IsWebFeed o g = record {
    parts = g.parts;
    read = g.read;
    web = g.web;
    hosted = g.hosted;
    titled = g.titled;
  }

  validated : (o : Outline) → outline_error r o ≡ none → validate_outline r o ≡ (kept o, none)
  unfolding validate_outline
  validated o q = rw (q, validate_outline) refl

  refused :
      (o : Outline) (e : Invalid) → outline_error r o ≡ some e → validate_outline r o ≡ (o, some e)
  unfolding validate_outline
  refused o e q = rw (q, validate_outline) refl

  place-IsRead :
      (o : Outline) (w : Walk)
      → o.invalid ≡ none
      → IsWebFeed o
      → IsRead w
      → IsRead (place r o none w)
  unfolding place
  place-IsRead o w fresh good h = elim (Option-cases (get w.seen (key_of o))) [
    | inr (prev, s) ↦ rw (s, place) (reject-IsRead o (duplicate_url prev) w h)
    | inl s ↦ rw (s, place) (add_valid-IsRead o w fresh good s h)
  ]

  add_outline-IsRead :
      (o : Outline) (w : Walk) → o.invalid ≡ none → IsRead w → IsRead (add_outline r o w)
  unfolding add_outline place
  add_outline-IsRead o w fresh h = elim (Option-cases (outline_error r o)) [
    | inr (e, q) ↦ rw (refused o e q) (reject-IsRead o e w h)
    | inl q ↦
        rw (validated o q)
          (place-IsRead (kept o) w fresh (kept-IsWebFeed o (outline_error-IsWebFeed o q)) h)
  ]

  mutual
    unfolding walk

    walk-IsRead :
        (ns : XmlOutlines) (key title : String) (w : Walk)
        → IsRead w
        → IsRead (walk r ns key title w)
    walk-IsRead no_outlines key title w h = h
    walk-IsRead (and_then n ns) key title w h =
        walk-IsRead ns key title _ (walk_one-IsRead n key title w h)

    walk_one-IsRead :
        (n : XmlOutline) (key title : String) (w : Walk)
        → IsRead w
        → IsRead (walk_one r n key title w)
    walk_one-IsRead (outline a children) key title w h = elim (Bool-cases (is_feed r a)) [
      | inl e ↦ rw e (add_outline-IsRead (new_outline r a key title) w refl h)
      | inr e ↦ rw e (
          walk-IsRead children (folder_key_of r a) (first_non_empty r a.title a.text)
            (record w { folders = suc w.folders })
            (record { known = h.known; apart = h.apart; web = h.web; counted = h.counted }))
    ]

  pub parsed : (body : XmlOutlines) → IsRead (parse_outlines r body)
  unfolding parse_outlines
  parsed body =
      walk-IsRead body "" "" _ (record { known = tt; apart = tt; web = tt; counted = refl })

  valid_web :
      (os : List Outline) → All (λ o. IfValid o (IsWebFeed o)) os → All IsWebFeed (select passes os)
  valid_web [] h = tt
  valid_web (o ∷ os) h = elim (Option-cases o.invalid) [
    | inl n ↦ rw (is_none o n) (h.0 n, valid_web os h.1)
    | inr (e, s) ↦ rw (is_error o e s) (valid_web os h.1)
  ]

  valid_far :
      (o : Outline) (os : List Outline)
      → o.invalid ≡ none
      → All (λ p. IfValid o (IfValid p (DistinctUrls o p))) os
      → All (DistinctUrls o) (select passes os)
  valid_far o [] v h = tt
  valid_far o (p ∷ os) v h = elim (Option-cases p.invalid) [
    | inl n ↦ rw (is_none p n) (h.0 v n, valid_far o os v h.1)
    | inr (e, s) ↦ rw (is_error p e s) (valid_far o os v h.1)
  ]

  valid_apart :
      (os : List Outline)
      → Pairwise (λ o p. IfValid o (IfValid p (DistinctUrls o p))) os
      → Pairwise DistinctUrls (select passes os)
  valid_apart [] h = tt
  valid_apart (o ∷ os) h = elim (Option-cases o.invalid) [
    | inl n ↦ rw (is_none o n) (valid_far o os n h.0, valid_apart os h.1)
    | inr (e, s) ↦ rw (is_error o e s) (valid_apart os h.1)
  ]

  -- The feeds of a pack that pass are feeds of the web, no two of them with the same URL.
  pub valid_feeds_lem :
      (body : XmlOutlines)
      → All IsWebFeed (valid_feeds (parse_outlines r body))
        × Pairwise DistinctUrls (valid_feeds (parse_outlines r body))
  unfolding valid_feeds
  valid_feeds_lem body = let h = parsed body in (valid_web _ h.web, valid_apart _ h.apart)
