-- ===== src/Pack/CountLaws.antt =====
-- backend/internal/feed/opml/opml.go: Parse reports every feed of the document.
use afghanistan_news.Base.{
  ℕ, suc, ◌+◌, String, Option, none, some, List, [], ◌∷◌, ◌≡◌, refl, inl, inr, select, length,
  length-append, count_where, Bool-cases, Option-cases, arith, if◌then◌else◌,
}
use afghanistan_news.Base.Maps.{get}
use afghanistan_news.Pack.Outline.{
  Reading, XmlOutline, outline, XmlOutlines, no_outlines, and_then, Invalid, Outline,
  first_non_empty,
}
use afghanistan_news.Pack.Parse.{
  Walk, new_outline, folder_key_of, reject, place, add_outline, is_feed, walk, walk_one,
  parse_outlines, valid_feeds, invalid_feeds,
}
use afghanistan_news.Pack.ParseLaws.{passes, has_error, parsed}

split_lengths :
    (os : List Outline) → length (select passes os) + length (select has_error os) ≡ length os
split_lengths [] = omega arith
split_lengths (o ∷ os) = ground (arith, split_lengths os)

errors_length : (os : List Outline) → length (select has_error os) ≡ count_where has_error os
errors_length [] = refl
errors_length (o ∷ os) = ground (arith, errors_length os)

module _ (r : Reading) where
  -- The outlines of a document that name a feed.
  mutual
    pub feeds_in : XmlOutlines → ℕ
    feeds_in no_outlines = 0
    feeds_in (and_then n ns) = feeds_in_one n + feeds_in ns

    pub feeds_in_one : XmlOutline → ℕ
    feeds_in_one (outline a children) =
        let inside = feeds_in children in if is_feed r a then 1 else inside

  place-length :
      (o : Outline) (e : Option Invalid) (w : Walk)
      → length (place r o e w).outlines ≡ length w.outlines + 1
  unfolding place reject
  place-length o (some e) w = length-append w.outlines _
  place-length o none w = elim (Option-cases (get w.seen (r.feed_url_key o.xml_url))) [
    | inr (prev, s) ↦ rw (s, place) (length-append w.outlines _)
    | inl s ↦ rw (s, place) (length-append w.outlines _)
  ]

  add_outline-length :
      (o : Outline) (w : Walk) → length (add_outline r o w).outlines ≡ length w.outlines + 1
  unfolding add_outline
  add_outline-length o w = place-length _ _ w

  mutual
    unfolding walk feeds_in

    walk-length :
        (ns : XmlOutlines) (key title : String) (w : Walk)
        → length (walk r ns key title w).outlines ≡ length w.outlines + feeds_in ns
    walk-length no_outlines key title w = omega arith
    walk-length (and_then n ns) key title w =
        omega (
          arith,
          walk-length ns key title (walk_one r n key title w),
          walk_one-length n key title w,
        )

    walk_one-length :
        (n : XmlOutline) (key title : String) (w : Walk)
        → length (walk_one r n key title w).outlines ≡ length w.outlines + feeds_in_one n
    walk_one-length (outline a children) key title w = elim (Bool-cases (is_feed r a)) [
      | inl e ↦ rw e (add_outline-length (new_outline r a key title) w)
      | inr e ↦ rw e (
          walk-length children (folder_key_of r a) (first_non_empty r a.title a.text)
            (record w { folders = suc w.folders }))
    ]

  all_found : (body : XmlOutlines) → length (parse_outlines r body).outlines ≡ feeds_in body
  unfolding parse_outlines
  all_found body =
      omega (
        arith,
        walk-length body "" "" (record { outlines = []; seen = []; errors = 0; folders = 0 }),
      )

  -- Every outline of the document that names a feed is reported, as valid or with its error, and the
  -- list of errors has one entry for each of the latter.
  pub parse_outlines_complete :
      (body : XmlOutlines)
      → (length (valid_feeds (parse_outlines r body))
            + length (invalid_feeds (parse_outlines r body))
          ≡ feeds_in body)
        × (length (invalid_feeds (parse_outlines r body)) ≡ (parse_outlines r body).errors)
  unfolding valid_feeds invalid_feeds
  parse_outlines_complete body =
      let d = parse_outlines r body in
      (
        omega (arith, split_lengths d.outlines, all_found body),
        omega (arith, errors_length d.outlines, (parsed r body).counted),
      )
