-- ===== src/Feeds/ImportLaws.antt =====
-- What a feed-pack import keeps (backend/internal/store/feeds.go).
use afghanistan_news.Base.{
  ℕ, ◌≤◌, ◌≡◌, refl, ap, inl, inr, Bool-cases, String, true, false, Option, some, List, [], ◌∷◌,
  ◌++◌, map, arith, str_eq, eq_iff, any, All, update_where, count_where, count_where-append,
}
use afghanistan_news.Model.{Feed, HealthStatus}
use afghanistan_news.Feeds.Writes.{FeedDb}
use afghanistan_news.Feeds.Lease.{postgres, is_claimable}
use afghanistan_news.Feeds.Import.{
  Upserted, feed_updated, imported, reimported, has_url, upsert_feed_from_import, is_missing,
  mark_feeds_missing,
}

-- The columns that belong to the worker.
pub record Runtime : Type 0 where
  pub id : String
  pub etag : String
  pub last_modified : String
  pub last_success_at : Option ℕ
  pub health_status : HealthStatus
  pub health_score : ℕ
  pub consecutive_failures : ℕ
  pub next_poll_at : Option ℕ
  pub lease_until : Option ℕ

abbrev pub runtime : Feed → Runtime
runtime f = record {
  id = f.id;
  etag = f.etag;
  last_modified = f.last_modified;
  last_success_at = f.last_success_at;
  health_status = f.health_status;
  health_score = f.health_score;
  consecutive_failures = f.consecutive_failures;
  next_poll_at = f.next_poll_at;
  lease_until = f.lease_until;
}

rows_runtime :
    (url : String) (f : Feed) (version : String) (now : ℕ) (feeds : List Feed)
    → map runtime (update_where (has_url url) (reimported f version now) feeds) ≡ map runtime feeds
unfolding reimported
rows_runtime url f version now [] = refl
rows_runtime url f version now (r ∷ rest) = elim (Bool-cases (has_url url r)) [
  | inl e ↦ rw e (ap (λ rows. runtime r ∷ rows) (rows_runtime url f version now rest))
  | inr e ↦ rw e (ap (λ rows. runtime r ∷ rows) (rows_runtime url f version now rest))
]

-- Where the import updates a known feed, no row loses its id, its caching headers, its last
-- success, its health, its failures, its next poll or its lease, and no row comes or goes.
pub import_keeps_runtime :
    (f : Feed) (version : String) (now : ℕ) (db after : FeedDb)
    → upsert_feed_from_import f version now db ≡ some (after, feed_updated)
    → map runtime after.feeds ≡ map runtime db.feeds
unfolding upsert_feed_from_import
import_keeps_runtime f version now db after h =
    elim (Bool-cases (any (has_url f.normalized_xml_url) db.feeds)) [
      | inl e ↦
          let h' = (rw e at h) in
          let same : update_where (has_url f.normalized_xml_url) (reimported f version now) db.feeds
              ≡ after.feeds =
            cc in
          rw⁻¹ same (rows_runtime f.normalized_xml_url f version now db.feeds)
      | inr e ↦ ground (arith, h, e)
    ]

count-reimported :
    (u url : String) (f : Feed) (version : String) (now : ℕ) (feeds : List Feed)
    → count_where (has_url u) (update_where (has_url url) (reimported f version now) feeds)
      ≡ count_where (has_url u) feeds
unfolding reimported
count-reimported u url f version now [] = refl
count-reimported u url f version now (r ∷ rest) =
    ground (arith, count-reimported u url f version now rest)

count_absent :
    (u : String) (feeds : List Feed)
    → any (has_url u) feeds ≡ false
    → count_where (has_url u) feeds ≡ 0
count_absent u [] h = refl
count_absent u (r ∷ rest) h = ground (arith, count_absent u rest)

missing_rows :
    (version : String) (kept : List String) (now t : ℕ) (feeds : List Feed)
    → All
        (λ (f : Feed). is_missing version kept f ≡ true → is_claimable postgres t f ≡ false)
        (update_where
          (is_missing version kept)
          (λ r. record r { needs_review = true; updated_at = now })
          feeds)
unfolding is_claimable
missing_rows version kept now t [] = tt
missing_rows version kept now t (f ∷ rest) = (
  elim (Bool-cases (is_missing version kept f)) [
    | inl e ↦ rw e (λ _. ground arith)
    | inr e ↦ rw e (λ q. ground (arith, e, q))
  ],
  missing_rows version kept now t rest,
)

-- An import keeps the URLs of the feeds unique: where no URL has two rows, none has two after it.
pub urls_stay_unique :
    (f : Feed) (version : String) (now : ℕ) (db after : FeedDb) (result : Upserted)
    → ((u : String) → count_where (has_url u) db.feeds ≤ 1)
    → upsert_feed_from_import f version now db ≡ some (after, result)
    → (u : String) → count_where (has_url u) after.feeds ≤ 1
unfolding upsert_feed_from_import imported
urls_stay_unique f version now db after result once h u =
    elim (Bool-cases (any (has_url f.normalized_xml_url) db.feeds)) [
      | inl e ↦
          let h' = (rw e at h) in
          let same : update_where (has_url f.normalized_xml_url) (reimported f version now) db.feeds
              ≡ after.feeds =
            cc in
          rw⁻¹ same (rw (count-reimported u f.normalized_xml_url f version now db.feeds) (once u))
      | inr e ↦ elim (Bool-cases (any (λ (r : Feed). str_eq r.id f.id) db.feeds)) [
        | inl i ↦ ground (arith, h, e, i)
        | inr i ↦
            let h' = (rw (e, i) at h) in
            let same : db.feeds ++ imported f version now ∷ [] ≡ after.feeds = cc in
            rw⁻¹ same (
              ground (
                arith,
                count_where-append (has_url u) db.feeds (imported f version now ∷ []),
                once u,
                count_absent f.normalized_xml_url db.feeds e,
                eq_iff f.normalized_xml_url u,
              ))
      ]
    ]

-- In the table that marking the feeds missing from a pack leaves, no feed that is missing can be
-- claimed by a worker on PostgreSQL, at any time.
pub missing_not_claimed :
    (version : String) (kept : List String) (now t : ℕ) (db : FeedDb)
    → All
        (λ (f : Feed). is_missing version kept f ≡ true → is_claimable postgres t f ≡ false)
        (mark_feeds_missing version kept now db).0.feeds
unfolding mark_feeds_missing
missing_not_claimed version kept now t db = missing_rows version kept now t db.feeds
