-- ===== src/Ingest/RunLaws.antt =====
-- The counters of one run (ingestCandidates in backend/internal/ingest/pipeline.go).
use afghanistan_news.Base.{
  ℕ, suc, ◌+◌, ◌≤◌, ◌<◌, ◌≡◌, refl, inl, inr, Option-cases, String, Bool, true, false, not, ◌||◌,
  List, [], ◌∷◌, arith, min, if◌then◌else◌, length, take, length-take,
}
use afghanistan_news.Model.{Feed, Candidate}
use afghanistan_news.Breaking.{BreakingSignals, decide_breaking, effective_cap}
use afghanistan_news.Articles.Rows.{ArticleInput, ArticleDb}
use afghanistan_news.Articles.Dedup.{inserted, duplicate, InsertResult, insert_article}
use afghanistan_news.Push.Store.{PushDb}
use afghanistan_news.Push.Notify.{Outside}
use afghanistan_news.Ingest.Items.{Language, Options, Moment, prepare, attach_to_cluster}
use afghanistan_news.Ingest.Run.{
  signals_of, Run, evaluate_breaking, settle, store_item, ingest_item, ingest_items,
  ingest_candidates, fresh_run,
}

flag_needs_room :
    (s : BreakingSignals) (run_items flagged most : ℕ)
    → (decide_breaking s run_items flagged most).flag ≡ true
    → flagged < effective_cap most
unfolding decide_breaking
flag_needs_room s run_items flagged most h = ground arith

-- What a run keeps true of its counters, with `n` items to come.
abbrev pub IsWithin : ℕ → Run → Type 0
IsWithin most r =
    (r.inserted + r.dups ≤ r.seen) × (r.flagged ≤ r.inserted) × (r.flagged ≤ effective_cap most)

-- The same in the middle of a turn, once the item is counted as inserted.
abbrev HasCounted : ℕ → Run → Type 0
HasCounted most r =
    (r.inserted + r.dups ≤ r.seen) × (r.flagged < r.inserted) × (r.flagged ≤ effective_cap most)

early :
    (P : Run → Type 0) (b : Bool) (r r' : Run) → P r → (b ≡ false → P r') → P (if b then r else r')
early P true r r' h f = h
early P false r r' h f = f refl

-- The counters after a step that sees no further item.
abbrev IsDone : ℕ → ℕ → Run → Type 0
IsDone most seen r = IsWithin most r × (r.seen ≡ seen)

evaluate-IsWithin :
    (lang : Language) (out : Outside) (opts : Options) (feed : Feed) (m : Moment)
    → (x : ArticleInput) (article : String) (n : ℕ) (r : Run)
    → HasCounted opts.max_breaking_per_run r
    → let after = evaluate_breaking lang out opts feed m x article n r in
      IsDone opts.max_breaking_per_run r.seen after
unfolding evaluate_breaking
evaluate-IsWithin lang out opts feed m x article n r h =
    let d =
      decide_breaking (signals_of lang m feed x r.articles) n r.flagged opts.max_breaking_per_run in
    let room =
      flag_needs_room (signals_of lang m feed x r.articles) n r.flagged opts.max_breaking_per_run in
    early (IsDone opts.max_breaking_per_run r.seen) (not d.flag || m.flag_fails) r _
      ((h.0, omega (arith, h.1), h.2), refl)
      (λ e. ((h.0, omega (arith, h.1), (let f : d.flag ≡ true = ground arith in room f)), refl))

settle-IsWithin :
    (lang : Language) (out : Outside) (opts : Options) (feed : Feed) (m : Moment)
    → (x : ArticleInput) (n : ℕ) (result : InsertResult) (r : Run)
    → IsWithin opts.max_breaking_per_run r
    → r.inserted + r.dups < r.seen
    → let after = settle lang out opts feed m x n result r in
      IsDone opts.max_breaking_per_run r.seen after
unfolding settle
settle-IsWithin lang out opts feed m x n result r h fits =
    elim result.outcome
      as (λ o. IsDone opts.max_breaking_per_run r.seen (
        let attached = record r {
          articles = attach_to_cluster lang out m x result.article_id r.articles;
        } in
        elim o [
          | duplicate ↦ record attached { dups = suc r.dups }
          | inserted ↦
              evaluate_breaking lang out opts feed m x result.article_id n
                (record attached { inserted = suc r.inserted })
        ])) [
          | duplicate ↦ ((omega (arith, fits), h.1, h.2), refl)
          | inserted ↦
              evaluate-IsWithin lang out opts feed m x result.article_id n
                (record r {
                  articles = attach_to_cluster lang out m x result.article_id r.articles;
                  inserted = suc r.inserted;
                })
                (omega (arith, fits), omega (arith, h.1), h.2)
        ]

store_item-IsWithin :
    (lang : Language) (out : Outside) (opts : Options) (feed : Feed) (m : Moment)
    → (x : ArticleInput) (n : ℕ) (r : Run) → IsWithin opts.max_breaking_per_run r
    → r.inserted + r.dups < r.seen
    → let after = store_item lang out opts feed m x n r in
      IsDone opts.max_breaking_per_run r.seen after
unfolding store_item
store_item-IsWithin lang out opts feed m x n r h fits =
    let answer = insert_article out.texts x r.articles (m.racing r.articles) in
    early (IsDone opts.max_breaking_per_run r.seen) m.insert_fails r _ (h, refl)
      (λ _.
        settle-IsWithin lang out opts feed m x n answer.1 (record r { articles = answer.0 }) h fits)

ingest_item-IsWithin :
    (lang : Language) (out : Outside) (opts : Options) (feed : Feed) (n : ℕ)
    → (i : Candidate × Moment) (r : Run) → IsWithin opts.max_breaking_per_run r
    → let after = ingest_item lang out opts feed n i r in
      IsWithin opts.max_breaking_per_run after × (after.seen ≡ suc r.seen)
unfolding ingest_item
ingest_item-IsWithin lang out opts feed n (c, m) r h =
    let r' = record r { seen = suc r.seen } in
    let h' : IsWithin opts.max_breaking_per_run r' = (omega (arith, h.0), h.1, h.2) in
    elim (Option-cases (prepare lang out feed c m.now)) [
      | inl e ↦ rw e (h', refl)
      | inr (x, e) ↦ rw e (store_item-IsWithin lang out opts feed m x n r' h' (omega (arith, h.0)))
    ]

ingest_items-IsWithin :
    (lang : Language) (out : Outside) (opts : Options) (feed : Feed) (n : ℕ)
    → (items : List (Candidate × Moment)) (r : Run) → IsWithin opts.max_breaking_per_run r
    → let after = ingest_items lang out opts feed n items r in
      IsWithin opts.max_breaking_per_run after × (after.seen ≡ r.seen + length items)
unfolding ingest_items
ingest_items-IsWithin lang out opts feed n [] r h = (h, omega arith)
ingest_items-IsWithin lang out opts feed n (i ∷ rest) r h =
    let one = ingest_item-IsWithin lang out opts feed n i r h in
    let more =
      ingest_items-IsWithin lang out opts feed n rest (ingest_item lang out opts feed n i r)
        one.0 in
    (more.0, omega (arith, one.1, more.1))

-- One run of a feed looks at the candidates up to the limit; the items that it counts as inserted
-- or as duplicate are together no more than those it looked at; and it flags no more items than it
-- inserted, and no more than the cap of a run.
pub run_counts :
    (lang : Language) (out : Outside) (opts : Options) (feed : Feed)
    → (items : List (Candidate × Moment)) (articles : ArticleDb) (push : PushDb)
    → let r = ingest_candidates lang out opts feed items articles push in
      (r.seen ≡ min opts.max_items_per_run (length items))
      × (r.inserted + r.dups ≤ r.seen)
      × (r.flagged ≤ r.inserted)
      × (r.flagged ≤ effective_cap opts.max_breaking_per_run)
unfolding ingest_candidates
run_counts lang out opts feed items articles push =
    let kept = take opts.max_items_per_run items in
    let all =
      ingest_items-IsWithin lang out opts feed (length kept) kept (fresh_run articles push)
        (omega arith, omega arith, omega arith) in
    let w = all.0 in (omega (arith, all.1, length-take opts.max_items_per_run items), w.0, w.1, w.2)
