-- ===== src/Pack/DryRunLaws.antt =====
-- backend/internal/store/imports.go: a dry run of ImportFeedPack reports what the import then does.
use afghanistan_news.Base.{
  ℕ, suc, ◌+◌, String, true, none, some, List, [], ◌∷◌, ◌++◌, ◌≡◌, ◌≢◌, refl, sym, ◌∙◌, inl, inr,
  str_eq, eq_refl, any, any-append, find, count_where, is_some, length, All, Option-cases, arith,
}
use mathlib.Core.List.{append_assoc}
use mathlib.Core.Path.{subst}
use afghanistan_news.Base.Keyset.{Pairwise}
use afghanistan_news.Model.{Feed}
use afghanistan_news.Feeds.Writes.{FeedDb}
use afghanistan_news.Feeds.Import.{
  Upserted, feed_inserted, feed_updated, has_url, upsert_feed_from_import, is_missing,
  mark_feeds_missing,
}
use afghanistan_news.Pack.Outline.{Outline}
use afghanistan_news.Pack.Parse.{Walk, valid_feeds, invalid_feeds}
use afghanistan_news.Pack.Import.{
  Naming, Registry, Report, feed_of, names_of, tally, upserted, source_of, write_source, dry_loop,
  commit_loop, known_urls, empty_report, count_missing, dry_run_import, commit,
}
use afghanistan_news.Pack.ImportLaws.{
  Outcome, as_new, as_known, upsert_outcome, outcome-find, outcome-missing,
}

-- The counters that both kinds of run have.
abbrev pub SameCounts : Report → Report → Type 0
SameCounts p r =
    (p.fresh ≡ r.fresh)
    × (p.changed ≡ r.changed)
    × (p.unchanged ≡ r.unchanged)
    × (p.invalid ≡ r.invalid)

-- What is written is what is counted.
abbrev pub Balanced : Report → Type 0
Balanced r = (r.inserted ≡ r.fresh) × (r.updated ≡ r.changed + r.unchanged)

-- Two registries that agree on a URL.
abbrev Agree : FeedDb → FeedDb → String → Type 0
Agree db db' u = find (has_url u) db.feeds ≡ find (has_url u) db'.feeds

tally-SameCounts :
    (db db' : FeedDb) (f : Feed) (result : Upserted) (p r : Report)
    → Agree db db' f.normalized_xml_url
    → SameCounts p r
    → SameCounts (tally db f p) (upserted result (tally db' f r))
unfolding tally
tally-SameCounts db db' f feed_inserted p r a same =
    ground (arith, a, same.0, same.1, same.2, same.3)
tally-SameCounts db db' f feed_updated p r a same =
    ground (arith, a, same.0, same.1, same.2, same.3)

find-any :
    (u : String) (feeds : List Feed) → is_some (find (has_url u) feeds) ≡ any (has_url u) feeds
find-any u [] = refl
find-any u (x ∷ feeds) = ground (arith, find-any u feeds)

tally-Balanced :
    (f : Feed) (version : String) (now : ℕ) (db db' : FeedDb) (result : Upserted) (r : Report)
    → Outcome f version now db db' result
    → Balanced r
    → Balanced (upserted result (tally db f r))
unfolding tally
tally-Balanced f version now db db' _ r (as_new absent rows) b =
    ground (arith, find-any f.normalized_xml_url db.feeds, absent, b.0, b.1)
tally-Balanced f version now db db' _ r (as_known present rows) b =
    ground (arith, find-any f.normalized_xml_url db.feeds, present, b.0, b.1)

still-Agree :
    (f : Feed) (version : String) (now : ℕ) (db0 db db' : FeedDb) (result : Upserted)
    (us : List String)
    → Outcome f version now db db' result
    → All (λ u. f.normalized_xml_url ≢ u) us
    → All (Agree db0 db) us
    → All (Agree db0 db') us
still-Agree f version now db0 db db' result [] out ne agree = tt
still-Agree f version now db0 db db' result (u ∷ us) out ne agree = (
  agree.0 ∙ sym (outcome-find f version now db db' result u out ne.0),
  still-Agree f version now db0 db db' result us out ne.1 agree.1,
)

-- The two loops and the URLs, one outline at a time.
module _ (n : Naming) (version : String) (now : ℕ) (o : Outline) (os : List Outline) where
  known_skip : names_of n o ≡ none → known_urls n version now (o ∷ os) ≡ known_urls n version now os
  unfolding known_urls
  known_skip e = rw (e, known_urls) refl

  dry_skip :
      (db : FeedDb) (p : Report)
      → names_of n o ≡ none
      → dry_loop n version now (o ∷ os) db p
        ≡ dry_loop n version now os db (record p { invalid = suc p.invalid })
  unfolding dry_loop
  dry_skip db p e = rw (e, dry_loop) refl

  commit_skip :
      (seen : List String) (g : Registry) (r : Report)
      → names_of n o ≡ none
      → commit_loop n version now (o ∷ os) seen g r
        ≡ commit_loop n version now os seen g (record r { invalid = suc r.invalid })
  unfolding commit_loop
  commit_skip seen g r e = rw (e, commit_loop) refl

  known_step :
      (normalized canonical : String)
      → names_of n o ≡ some (normalized, canonical)
      → known_urls n version now (o ∷ os) ≡ normalized ∷ known_urls n version now os
  unfolding known_urls
  known_step normalized canonical e = rw (e, known_urls) refl

  dry_step :
      (db : FeedDb) (p : Report) (normalized canonical : String)
      → names_of n o ≡ some (normalized, canonical)
      → dry_loop n version now (o ∷ os) db p
        ≡ dry_loop n version now os db (tally db (feed_of n o normalized canonical version) p)
  unfolding dry_loop
  dry_step db p normalized canonical e = rw (e, dry_loop) refl

  commit_error :
      (seen : List String) (g : Registry) (r : Report) (normalized canonical : String)
      → names_of n o ≡ some (normalized, canonical)
      → upsert_feed_from_import (feed_of n o normalized canonical version) version now g.feeds
        ≡ none
      → commit_loop n version now (o ∷ os) seen g r ≡ none
  unfolding commit_loop
  commit_error seen g r normalized canonical e u = ground (arith, e, u)

  commit_step :
      (seen : List String) (g : Registry) (r : Report) (normalized canonical : String)
      (feeds : FeedDb) (result : Upserted)
      → names_of n o ≡ some (normalized, canonical)
      → upsert_feed_from_import (feed_of n o normalized canonical version) version now g.feeds
        ≡ some (feeds, result)
      → commit_loop n version now (o ∷ os) seen g r
        ≡ commit_loop n version now os
            ((feed_of n o normalized canonical version).source_id ∷ seen)
            (record { feeds = feeds; sources = write_source (source_of n o now) seen g.sources })
            (upserted result (tally g.feeds (feed_of n o normalized canonical version) r))
  unfolding commit_loop
  commit_step seen g r normalized canonical feeds result e u = ground (arith, e, u)

module _ (n : Naming) (version : String) (now : ℕ) (db0 : FeedDb) (kept : List String) where
  -- The two loops side by side: the rest of the outlines, and what holds of it.
  record Foretold (os : List Outline) (p : Report) (g' : Registry) (r' : Report) (db : FeedDb)
      : Type 0 where
    same : SameCounts (dry_loop n version now os db0 p) r'
    balanced : Balanced r'
    missing :
        count_where (is_missing version kept) g'.feeds.feeds
        ≡ count_where (is_missing version kept) db.feeds

  loops :
      (os : List Outline) (seen : List String) (g : Registry) (p r : Report) (g' : Registry)
      (r' : Report)
      → Pairwise (λ u v. u ≢ v) (known_urls n version now os)
      → All (Agree db0 g.feeds) (known_urls n version now os)
      → All (λ u. any (λ v. str_eq v u) kept ≡ true) (known_urls n version now os)
      → SameCounts p r
      → Balanced r
      → commit_loop n version now os seen g r ≡ some (g', r')
      → Foretold os p g' r' g.feeds
  unfolding dry_loop commit_loop known_urls feed_of
  loops [] seen g p r g' r' apart agree inside same balanced h =
      let state : g ≡ g' = ground arith in
      let counts : r ≡ r' = ground arith in
      record { same = rw⁻¹ counts same; balanced = rw⁻¹ counts balanced; missing = rw⁻¹ state refl }
  loops (o ∷ os) seen g p r g' r' apart agree inside same balanced h =
      elim (Option-cases (names_of n o)) [
        | inl e ↦
            let skip = known_skip n version now o os e in
            let rest =
              loops os seen g (record p { invalid = suc p.invalid })
                (record r { invalid = suc r.invalid }) g' r' (rw skip at apart) (rw skip at agree)
                (rw skip at inside) (omega (arith, same.0, same.1, same.2, same.3)) balanced
                (sym (commit_skip n version now o os seen g r e) ∙ h) in
            record {
              same = rw (dry_skip n version now o os db0 p e) rest.same;
              balanced = rest.balanced;
              missing = rest.missing;
            }
        | inr ((normalized, canonical), e) ↦
            let f = feed_of n o normalized canonical version in
            let step = known_step n version now o os normalized canonical e in
            let apart' = (rw step at apart) in
            let agree' = (rw step at agree) in
            let inside' = (rw step at inside) in
            elim (Option-cases (upsert_feed_from_import f version now g.feeds)) [
              | inl u ↦ cc (commit_error n version now o os seen g r normalized canonical e u, h)
              | inr ((feeds, result), u) ↦
                  let out = upsert_outcome f version now g.feeds feeds result u in
                  let rest =
                    loops os (f.source_id ∷ seen)
                      (record {
                        feeds = feeds;
                        sources = write_source (source_of n o now) seen g.sources;
                      })
                      (tally db0 f p) (upserted result (tally g.feeds f r)) g' r' apart'.1
                      (still-Agree f version now db0 g.feeds feeds result
                        (known_urls n version now os) out apart'.0 agree'.1)
                      inside'.1 (tally-SameCounts db0 g.feeds f result p r agree'.0 same)
                      (tally-Balanced f version now g.feeds feeds result r out balanced)
                      (sym (
                          commit_step n version now o os seen g r normalized canonical feeds result
                            e u)
                        ∙ h) in
                  record {
                    same = rw (dry_step n version now o os db0 p normalized canonical e) rest.same;
                    balanced = rest.balanced;
                    missing =
                        rest.missing
                        ∙ outcome-missing kept f version now g.feeds feeds result out inside'.0;
                  }
            ]
      ]

self_inside : (us pre : List String) → All (λ u. any (λ v. str_eq v u) (pre ++ us) ≡ true) us
self_inside [] pre = tt
self_inside (u ∷ us) pre = (
  ground (arith, any-append (λ v. str_eq v u) pre (u ∷ us), eq_refl u),
  subst (λ (l : List String). All (λ w. any (λ v. str_eq v w) l ≡ true) us)
      (append_assoc pre (u ∷ []) us) (self_inside us (pre ++ (u ∷ []))),
)

Agree-self : (db : FeedDb) (us : List String) → All (Agree db db) us
Agree-self db [] = tt
Agree-self db (u ∷ us) = (refl, Agree-self db us)

-- Where an import of a pack succeeds and no two of its feeds have the same normalized URL, a dry run
-- on the registry before it reports the same numbers of new, changed, unchanged, invalid and missing
-- feeds; the import inserts the new ones and updates all others.
pub dry_run_foretells :
    (n : Naming) (version : String) (now : ℕ) (d : Walk) (g g' : Registry) (r : Report)
    → Pairwise (λ u v. u ≢ v) (known_urls n version now (valid_feeds d))
    → commit n version now d g ≡ some (g', r)
    → SameCounts (dry_run_import n version now d g) r
      × ((dry_run_import n version now d g).missing ≡ r.missing)
      × (r.inserted ≡ r.fresh)
      × (r.updated ≡ r.changed + r.unchanged)
unfolding dry_run_import commit count_missing mark_feeds_missing
dry_run_foretells n version now d g g' r apart h =
    let os = valid_feeds d in
    let us = known_urls n version now os in
    let start = empty_report n version now (length (invalid_feeds d)) in
    elim (Option-cases (commit_loop n version now os [] g start)) [
      | inl e ↦ ground (arith, e, h)
      | inr ((g1, r1), e) ↦
          let f =
            loops n version now g.feeds us os [] g start start g1 r1 apart (Agree-self g.feeds us)
              (self_inside us []) (refl, refl, refl, refl) (refl, refl) e in
          let final : record r1 { missing = count_where (is_missing version us) g1.feeds.feeds }
              ≡ r =
            ground arith in
          rw⁻¹ final (f.same, sym f.missing, f.balanced.0, f.balanced.1)
    ]
