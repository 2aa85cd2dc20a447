-- ===== src/Api/ConsoleLaws.antt =====
-- backend/internal/httpapi/admin.go: who can change an article.
use afghanistan_news.Base.{
  ℕ, String, Bool, false, Option, none, some, List, [], ◌∷◌, map, ◌≡◌, ◌≢◌, refl, ap, ◌∙◌, inl, inr,
  str_eq, update_where, Bool-cases, Option-cases, arith,
}
use afghanistan_news.Model.{ArticleStatus, active, hidden}
use afghanistan_news.Articles.Rows.{Article, set_article_status, reclassify_article}
use afghanistan_news.Api.Session.{
  SessionClaims, Crypto, SessionManager, Credentials, require_auth, token_of, can,
}
use afghanistan_news.Api.SessionLaws.{Opens, require_auth-Opens}
use afghanistan_news.Api.Console.{
  Tables, Failing, ArticleUpdate, Stage, answered, go_on, audit, breaking_stage, status_stage,
  classify_stage, then_stage, finish, handle_article_update, patch_article, unauthorized_401,
}

abbrev flag_of : Article → Bool × ℕ
flag_of a = (a.is_breaking, a.breaking_score)

-- The breaking flags and scores, article by article.
unfoldable pub flags : Tables → List (Bool × ℕ)
flags t = map flag_of t.articles.articles

abbrev stage_tables : Stage → Tables
stage_tables (answered t a) = t
stage_tables (go_on t) = t

status_keeps :
    (id : String) (s : ArticleStatus) (rows : List Article)
    → map flag_of
        (update_where (λ (a : Article). str_eq a.id id) (λ a. record a { status = s }) rows)
      ≡ map flag_of rows
status_keeps id s [] = refl
status_keeps id s (a ∷ rows) = elim (Bool-cases (str_eq a.id id)) [
  | inl e ↦ rw e (ap (λ (r : List (Bool × ℕ)). flag_of a ∷ r) (status_keeps id s rows))
  | inr e ↦ rw e (ap (λ (r : List (Bool × ℕ)). flag_of a ∷ r) (status_keeps id s rows))
]

status_stage-flags :
    (f : Failing) (claims : SessionClaims) (id status : String) (t : Tables)
    → flags (stage_tables (status_stage f claims id status t)) ≡ flags t
unfolding status_stage flags set_article_status audit
status_stage-flags f claims id status t =
    ground (
      arith,
      status_keeps id hidden t.articles.articles,
      status_keeps id active t.articles.articles,
    )

classify_stage-flags :
    (known : String → Bool) (joined : String → String → String) (f : Failing)
    (claims : SessionClaims) (id category province : String) (t : Tables)
    → flags (stage_tables (classify_stage known joined f claims id category province t)) ≡ flags t
unfolding classify_stage flags reclassify_article audit
classify_stage-flags known joined f claims id category province t = ground arith

breaking_stage-flags :
    (f : Failing) (claims : SessionClaims) (id : String) (b : Option Bool) (t : Tables)
    → can claims.role "breaking" ≡ false
    → stage_tables (breaking_stage f claims id b t) ≡ t
unfolding breaking_stage
breaking_stage-flags f claims id none t h = refl
breaking_stage-flags f claims id (some b) t h = rw h refl

then_stage-flags :
    (m : Stage) (next : Tables → Stage) (t : Tables)
    → flags (stage_tables m) ≡ flags t
    → ((u : Tables) → flags (stage_tables (next u)) ≡ flags u)
    → flags (stage_tables (then_stage m next)) ≡ flags t
then_stage-flags (answered u a) next t h keep = h
then_stage-flags (go_on u) next t h keep = keep u ∙ h

finish_tables : (f : Failing) (m : Stage) → (finish f m).0 ≡ stage_tables m
finish_tables f (answered t a) = refl
finish_tables f (go_on t) = refl

module _ (known : String → Bool) (joined : String → String → String) where
  -- Whatever a request asks for and whichever statements fail, the breaking flag and score of every
  -- article stay as they are where the operator's role does not grant "breaking".
  pub handle_article_update-flags :
      (f : Failing) (claims : SessionClaims) (id : String) (body : ArticleUpdate) (t : Tables)
      → can claims.role "breaking" ≡ false
      → flags (handle_article_update known joined f claims id body t).0 ≡ flags t
  unfolding handle_article_update
  handle_article_update-flags f claims id body t h =
      let first = breaking_stage f claims id body.breaking t in
      let second = then_stage first (status_stage f claims id body.status) in
      let last =
        then_stage second
          (classify_stage known joined f claims id body.category_id body.province_id) in
      ap flags (finish_tables f last)
      ∙ then_stage-flags second
          (classify_stage known joined f claims id body.category_id body.province_id) t
          (then_stage-flags first (status_stage f claims id body.status) t
            (ap flags (breaking_stage-flags f claims id body.breaking t h))
            (λ u. status_stage-flags f claims id body.status u))
          (λ u. classify_stage-flags known joined f claims id body.category_id body.province_id u)

  -- A request that changes the tables, or is not answered with 401, comes with a token that opens a
  -- session: its payload bears the server's code and has not expired.
  pub patch_article-Opens :
      (c : Crypto) (m : SessionManager) (now : ℕ) (r : Credentials) (f : Failing) (id : String)
      (body : ArticleUpdate) (t : Tables)
      → patch_article known joined c m now r f id body t ≢ (t, unauthorized_401)
      → (claims : SessionClaims) × Opens c m now (token_of r) claims
        × (patch_article known joined c m now r f id body t
            ≡ handle_article_update known joined f claims id body t)
  unfolding patch_article
  patch_article-Opens c m now r f id body t changed = elim (Option-cases (require_auth c m now r)) [
    | inl n ↦ absurd (changed (rw (n, patch_article) refl))
    | inr (claims, e) ↦ (claims, require_auth-Opens c m now r claims e, rw (e, patch_article) refl)
  ]

  -- No role is asked for to hide an article: a request for this alone, whoever is logged in, hides the
  -- article where the statement does not fail.
  pub any_role_hides :
      (f : Failing) (claims : SessionClaims) (id : String) (t : Tables)
      → f.status_fails ≡ false
      → (handle_article_update known joined f claims id
          (record { breaking = none; status = "HIDDEN"; category_id = ""; province_id = "" })
          t).0.articles
        ≡ set_article_status id hidden t.articles
  unfolding handle_article_update breaking_stage status_stage classify_stage audit
  any_role_hides f claims id t h = ground arith
