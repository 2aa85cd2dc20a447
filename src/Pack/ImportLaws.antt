-- ===== src/Pack/ImportLaws.antt =====
-- backend/internal/store/imports.go: a dry run of ImportFeedPack foretells the import.
use afghanistan_news.Base.{
  ℕ, String, true, false, some, List, [], ◌∷◌, ◌++◌, ◌≡◌, ◌≢◌, refl, ◌∙◌, inl, inr, str_eq, eq_iff,
  eq_refl, any, find, update_where, count_where, count_where-append, Bool-cases, arith,
}
use afghanistan_news.Model.{Feed}
use afghanistan_news.Feeds.Writes.{FeedDb}
use afghanistan_news.Feeds.Import.{
  Upserted, feed_inserted, feed_updated, imported, reimported, has_url, upsert_feed_from_import,
  is_missing,
}

-- The statement leaves what stands under another URL.
find-reimported :
    (u url : String) (f : Feed) (version : String) (now : ℕ) (feeds : List Feed)
    → url ≢ u
    → find (has_url u) (update_where (has_url url) (reimported f version now) feeds)
      ≡ find (has_url u) feeds
unfolding reimported
find-reimported u url f version now [] ne = refl
find-reimported u url f version now (r ∷ rest) ne = ground (
  arith,
  find-reimported u url f version now rest ne,
  eq_iff r.normalized_xml_url url,
  eq_iff r.normalized_xml_url u,
)

find-append_other :
    (u : String) (feeds : List Feed) (x : Feed)
    → has_url u x ≡ false
    → find (has_url u) (feeds ++ (x ∷ [])) ≡ find (has_url u) feeds
find-append_other u [] x h = rw h refl
find-append_other u (r ∷ rest) x h = ground (arith, find-append_other u rest x h)

-- How the statement comes out: a new row, or a change of those with the URL.
pub data Outcome (f : Feed) (version : String) (now : ℕ) (db : FeedDb)
    : FeedDb → Upserted → Type 0 where
  as_new :
      {db' : FeedDb}
      → any (has_url f.normalized_xml_url) db.feeds ≡ false
      → db'.feeds ≡ db.feeds ++ (imported f version now ∷ [])
      → Outcome f version now db db' feed_inserted
  as_known :
      {db' : FeedDb}
      → any (has_url f.normalized_xml_url) db.feeds ≡ true
      → db'.feeds ≡ update_where (has_url f.normalized_xml_url) (reimported f version now) db.feeds
      → Outcome f version now db db' feed_updated

pub upsert_outcome :
    (f : Feed) (version : String) (now : ℕ) (db db' : FeedDb) (result : Upserted)
    → upsert_feed_from_import f version now db ≡ some (db', result)
    → Outcome f version now db db' result
unfolding upsert_feed_from_import
upsert_outcome f version now db db' result h =
    elim (Bool-cases (any (has_url f.normalized_xml_url) db.feeds)) [
      | inl e ↦
          let updated : feed_updated ≡ result = ground arith in
          rw⁻¹ updated (as_known e (ground arith))
      | inr e ↦
          let inserted : feed_inserted ≡ result = ground arith in
          rw⁻¹ inserted (as_new e (ground arith))
    ]

pub outcome-find :
    (f : Feed) (version : String) (now : ℕ) (db db' : FeedDb) (result : Upserted) (u : String)
    → Outcome f version now db db' result
    → f.normalized_xml_url ≢ u
    → find (has_url u) db'.feeds ≡ find (has_url u) db.feeds
unfolding imported
outcome-find f version now db db' _ u (as_new absent rows) ne = rw rows (
    find-append_other u db.feeds (imported f version now)
      (ground (arith, eq_iff f.normalized_xml_url u)))
outcome-find f version now db db' _ u (as_known present rows) ne =
    rw rows (find-reimported u f.normalized_xml_url f version now db.feeds ne)

-- Feeds of the pack are not missing from it, before or after.
missing-reimported :
    (version : String) (kept : List String) (f : Feed) (now : ℕ) (feeds : List Feed)
    → any (λ v. str_eq v f.normalized_xml_url) kept ≡ true
    → count_where
        (is_missing version kept)
        (update_where (has_url f.normalized_xml_url) (reimported f version now) feeds)
      ≡ count_where (is_missing version kept) feeds
unfolding is_missing reimported
missing-reimported version kept f now [] h = refl
missing-reimported version kept f now (r ∷ rest) h =
    elim (Bool-cases (has_url f.normalized_xml_url r)) [
      | inl e ↦
          let same : r.normalized_xml_url ≡ f.normalized_xml_url = (eq_iff _ _).0 e in
          ground (arith, missing-reimported version kept f now rest h, same, eq_refl version)
      | inr e ↦ ground (arith, missing-reimported version kept f now rest h)
    ]

pub outcome-missing :
    (kept : List String) (f : Feed) (version : String) (now : ℕ) (db db' : FeedDb)
    (result : Upserted)
    → Outcome f version now db db' result
    → any (λ v. str_eq v f.normalized_xml_url) kept ≡ true
    → count_where (is_missing version kept) db'.feeds
      ≡ count_where (is_missing version kept) db.feeds
unfolding is_missing imported
outcome-missing kept f version now db db' _ (as_new absent rows) h = rw rows (
    count_where-append (is_missing version kept) db.feeds (imported f version now ∷ [])
    ∙ ground (arith, eq_refl version))
outcome-missing kept f version now db db' _ (as_known present rows) h =
    rw rows (missing-reimported version kept f now db.feeds h)
