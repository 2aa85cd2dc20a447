-- ===== src/Articles/Reingest.antt =====
-- Ingesting an article again (backend/internal/store/articles.go).
use afghanistan_news.Base.{
  ℕ, ◌-◌, ◌≡◌, refl, String, true, ◌&&◌, Option, none, some, List, [], ◌∷◌, ◌++◌, arith, eq_refl,
  if◌then◌else◌,
}
use afghanistan_news.Articles.Rows.{ArticleInput, Article, ArticleDb, Texts}
use afghanistan_news.Articles.Dedup.{
  Level, guid, url, by_guid, by_url, some_text, find_duplicate_article, inserted, duplicate, row_of,
  insert_row, insert_unless, with_id, dedup_window, insert_article,
}
use afghanistan_news.Articles.DedupLaws.{duplicate_of, duplicate_none, search_app}

found_again :
    (tx : Texts) (x : ArticleInput) (since : ℕ) (rows : List Article)
    → some_text x.normalized_url ≡ true
    → duplicate_of x since rows ≡ none
    → (l : Level) × (duplicate_of x since (rows ++ row_of tx x ∷ []) ≡ some (x.id, l))
unfolding find_duplicate_article row_of
found_again tx x since rows web h =
    let (a, b) = duplicate_none x since rows h in
    let row = row_of tx x in
    let asked = some_text x.external_guid && some_text x.feed_id in
    (
      if asked && by_guid x.feed_id x.external_guid row then guid else url,
      ground (
        arith,
        eq_refl x.normalized_url,
        search_app asked guid (by_guid x.feed_id x.external_guid) rows row a,
        search_app (some_text x.normalized_url) url (by_url x.normalized_url) rows row b,
      ),
    )

pub row_inserted :
    (tx : Texts) (x : ArticleInput) (db : ArticleDb)
    → (insert_row tx x db).1.outcome ≡ inserted
    → ((insert_row tx x db).0.articles ≡ db.articles ++ row_of tx x ∷ [])
      × ((insert_row tx x db).1.article_id ≡ x.id)
unfolding insert_row
row_inserted tx x db h = ground arith

inserted_again :
    (tx : Texts) (x : ArticleInput) (since : ℕ) (db : ArticleDb) (o : Option (String × Level))
    → some_text x.normalized_url ≡ true
    → duplicate_of x since db.articles ≡ o
    → (insert_unless o tx x db).1.outcome ≡ inserted
    → let (after, result) = insert_unless o tx x db in
      (l : Level) × (insert_unless (duplicate_of x since after.articles) tx x after ≡ (
        after,
        record { outcome = duplicate; article_id = result.article_id; dedup_level = some l },
      ))
unfolding insert_unless
inserted_again tx x since db (some (id, l)) web e h = absurd (cc)
inserted_again tx x since db none web e h =
    let (rows, id) = row_inserted tx x db h in
    let (l, again) = found_again tx x since db.articles web e in (l, rw (rows, again, id) refl)

-- An article with a normalized URL that was inserted is a duplicate of itself: where no other
-- worker writes in between, ingesting it once more leaves every table as it is, and answers with
-- its id.
pub reingest_idempotent :
    (tx : Texts) (x : ArticleInput) (db : ArticleDb)
    → some_text x.normalized_url ≡ true
    → (insert_article tx x db db).1.outcome ≡ inserted
    → let (after, result) = insert_article tx x db db in
      (l : Level) × (insert_article tx x after after ≡ (
        after,
        record { outcome = duplicate; article_id = result.article_id; dedup_level = some l },
      ))
unfolding insert_article
reingest_idempotent tx x db web h =
    inserted_again tx (with_id tx x) ((with_id tx x).discovered_at - dedup_window) db _
      (ground arith) refl h
