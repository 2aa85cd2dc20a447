-- ===== src/Parser/GuidLaws.antt =====
-- backend/internal/feed/parser/parser.go: the GUID of an item whose guid element has no text.
use afghanistan_news.Base.{
  ℕ, ◌-◌, ◌&&◌, Bool, true, false, Option, none, some, List, [], ◌∷◌, ◌++◌, String, ◌≡◌, refl, sym,
  ◌∙◌, inl, inr, Bool-cases, Option-cases, find, str_eq, eq_refl, arith,
}
use afghanistan_news.Articles.Rows.{Article, ArticleInput, ArticleDb, Texts}
use afghanistan_news.Articles.Dedup.{
  Level, guid, by_guid, search, some_text, find_duplicate_article, inserted, duplicate, row_of,
  insert_unless, with_id, dedup_window, insert_article,
}
use afghanistan_news.Articles.DedupLaws.{duplicate_of, duplicate_none}
use afghanistan_news.Articles.Reingest.{row_inserted}
use afghanistan_news.Text.Plain.{PlainLib, is_blank}
use afghanistan_news.Parser.Xml.{XmlNode}
use afghanistan_news.Parser.Read.{child, attr, first_non_empty}
use afghanistan_news.Parser.Items.{child_text, item_guid}

-- An item with `<guid isPermaLink="v"/>`, v being neither blank nor "false".
pub record HasEmptyGuid (l : PlainLib) (v : String) (it : XmlNode) : Type 0 where
  pub no_text : is_blank (l.trim_space (child_text l it "guid")) ≡ true
  pub marked : attr l (child l it ("guid" ∷ [])) ("isPermaLink" ∷ []) ≡ v
  pub not_false : l.equal_fold v "false" ≡ false
  pub not_blank : is_blank (l.trim_space v) ≡ false

item_guid-marked :
    (l : PlainLib) (v : String) (it : XmlNode)
    → HasEmptyGuid l v it
    → item_guid l it ≡ l.trim_space v
unfolding item_guid first_non_empty
item_guid-marked l v it h = rw h.marked (rw h.not_false (rw (h.no_text, h.not_blank) refl))

-- An input whose feed and GUID are not blank, as the store trims texts.
pub record HasGuid (tx : Texts) (x : ArticleInput) : Type 0 where
  pub feed : some_text x.feed_id ≡ true
  pub guid : some_text x.external_guid ≡ true
  pub feed_kept : some_text (tx.trim x.feed_id) ≡ true
  pub guid_kept : some_text (tx.trim x.external_guid) ≡ true

row_by_guid :
    (tx : Texts) (x : ArticleInput)
    → HasGuid tx x
    → by_guid x.feed_id x.external_guid (row_of tx x) ≡ true
unfolding row_of
row_by_guid tx x h = ground (arith, eq_refl x.feed_id, eq_refl x.external_guid)

find_later :
    (p : Article → Bool) (rows later : List Article) (r : Article)
    → find p rows ≡ none
    → p r ≡ true
    → find p ((rows ++ r ∷ []) ++ later) ≡ some r
find_later p [] later r h k = rw k refl
find_later p (a ∷ rows) later r h k = ground (arith, find_later p rows later r)

-- The level of GUIDs is the first: where it is silent no row has the GUID, and its answer decides.
silent_guid :
    (x : ArticleInput) (since : ℕ) (rows : List Article)
    → some_text x.feed_id ≡ true
    → some_text x.external_guid ≡ true
    → duplicate_of x since rows ≡ none
    → find (by_guid x.feed_id x.external_guid) rows ≡ none
silent_guid x since rows f g h =
    elim (Option-cases (find (by_guid x.feed_id x.external_guid) rows)) [
      | inl e ↦ e
      | inr (a, e) ↦
          let asked : search (some_text x.external_guid && some_text x.feed_id) guid
                (by_guid x.feed_id x.external_guid) rows
              ≡ some (a.id, guid) =
            ground (arith, e) in
          let (silent, _) = duplicate_none x since rows h in absurd (cc)
    ]

guid_decides :
    (y : ArticleInput) (since : ℕ) (rows : List Article) (r : Article)
    → some_text y.feed_id ≡ true
    → some_text y.external_guid ≡ true
    → find (by_guid y.feed_id y.external_guid) rows ≡ some r
    → duplicate_of y since rows ≡ some (r.id, guid)
unfolding find_duplicate_article
guid_decides y since rows r f g e = rw (f, g, e) refl

inserted_silent :
    (tx : Texts) (x : ArticleInput) (db : ArticleDb) (o : Option (String × Level))
    → (insert_unless o tx x db).1.outcome ≡ inserted
    → (o ≡ none)
      × ((insert_unless o tx x db).0.articles ≡ db.articles ++ row_of tx x ∷ [])
      × ((insert_unless o tx x db).1.article_id ≡ x.id)
unfolding insert_unless
inserted_silent tx x db none h = let (rows, id) = row_inserted tx x db h in (refl, rows, id)
inserted_silent tx x db (some (found, level)) h = absurd (cc)

row_id : (tx : Texts) (x : ArticleInput) → (row_of tx x).id ≡ x.id
unfolding row_of
row_id tx x = refl

-- What was stored is found again by an input with its feed and its GUID.
found_by_guid :
    (tx : Texts) (x y : ArticleInput) (since since' : ℕ) (db : ArticleDb) (later : List Article)
    → HasGuid tx x
    → y.feed_id ≡ x.feed_id
    → y.external_guid ≡ x.external_guid
    → (insert_unless (duplicate_of x since db.articles) tx x db).1.outcome ≡ inserted
    → let (after, result) = insert_unless (duplicate_of x since db.articles) tx x db in
      duplicate_of y since' (after.articles ++ later) ≡ some (result.article_id, guid)
found_by_guid tx x y since since' db later h feed same stored =
    let (silent, rows, id) = inserted_silent tx x db _ stored in
    let by_x = by_guid x.feed_id x.external_guid in
    let first : find by_x ((db.articles ++ row_of tx x ∷ []) ++ later) ≡ some (row_of tx x) =
      find_later by_x db.articles later (row_of tx x)
        (silent_guid x since db.articles h.feed h.guid silent) (row_by_guid tx x h) in
    rw (rows, id)
      (rw
        (guid_decides y since' ((db.articles ++ row_of tx x ∷ []) ++ later) (row_of tx x)
          (rw feed h.feed) (rw same h.guid) (rw (feed, same) first))
        (rw (row_id tx x) refl))

-- The derivation of an id changes nothing else.
with_id_keeps :
    (tx : Texts) (x : ArticleInput)
    → ((with_id tx x).feed_id ≡ x.feed_id) × ((with_id tx x).external_guid ≡ x.external_guid)
with_id_keeps tx x = ground arith

with_id-HasGuid : (tx : Texts) (x : ArticleInput) → HasGuid tx x → HasGuid tx (with_id tx x)
with_id-HasGuid tx x h = elim (Bool-cases (str_eq x.id "")) [
  | inl e ↦
      rw e
        (record { feed = h.feed; guid = h.guid; feed_kept = h.feed_kept; guid_kept = h.guid_kept })
  | inr e ↦ rw e h
]

-- Two items of a feed with an empty guid element and the same isPermaLink, neither blank nor "false",
-- get that value as their GUID, whatever else they say. Once the article of the first was inserted, with
-- any rows added after it, inserting that of the second changes no table and answers that it is a
-- duplicate of the first by its GUID. The two come with the same feed, the store's trimming leaves the
-- feed and the GUID a text, and no other worker writes during either insertion.
pub empty_guids_collide :
    (l : PlainLib) (tx : Texts) (v : String) (it it' : XmlNode) (x y : ArticleInput)
    (db db' : ArticleDb) (later : List Article)
    → HasEmptyGuid l v it
    → HasEmptyGuid l v it'
    → x.external_guid ≡ item_guid l it
    → y.external_guid ≡ item_guid l it'
    → y.feed_id ≡ x.feed_id
    → some_text x.feed_id ≡ true
    → some_text (tx.trim x.feed_id) ≡ true
    → some_text (tx.trim x.external_guid) ≡ true
    → (insert_article tx x db db).1.outcome ≡ inserted
    → db'.articles ≡ (insert_article tx x db db).0.articles ++ later
    → insert_article tx y db' db' ≡ (
      db',
      record {
        outcome = duplicate;
        article_id = (insert_article tx x db db).1.article_id;
        dedup_level = some guid;
      },
    )
unfolding insert_article insert_unless
empty_guids_collide l tx v it it' x y db db' later h h' of_x of_y feed f tf tg stored rows =
    let g : x.external_guid ≡ l.trim_space v = of_x ∙ item_guid-marked l v it h in
    let same : y.external_guid ≡ x.external_guid = of_y ∙ (item_guid-marked l v it' h' ∙ sym g) in
    let has : HasGuid tx x = record {
      feed = f;
      guid = rw (g, h.not_blank) refl;
      feed_kept = tf;
      guid_kept = tg;
    } in
    let (x_feed, x_guid) = with_id_keeps tx x in
    let (y_feed, y_guid) = with_id_keeps tx y in
    rw
      (
        rows,
        found_by_guid tx (with_id tx x) (with_id tx y) ((with_id tx x).discovered_at - dedup_window)
            ((with_id tx y).discovered_at - dedup_window) db later (with_id-HasGuid tx x has)
            (y_feed ∙ (feed ∙ sym x_feed)) (y_guid ∙ (same ∙ sym x_guid)) stored,
      )
      refl
