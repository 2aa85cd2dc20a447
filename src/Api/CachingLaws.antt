-- ===== src/Api/CachingLaws.antt =====
-- backend/internal/httpapi/caching.go: what a client that keeps its last reply sees.
use afghanistan_news.Base.{Bool, true, false, ◌≡◌, refl, ap, ◌↔◌, inl, inr, Bool-cases}
use afghanistan_news.Query.Cursor.{Bytes}
use afghanistan_news.Api.Session.{bytes_eq}
use afghanistan_news.Api.SessionLaws.{bytes_eq_refl, bytes_eq_sound}
use afghanistan_news.Api.Caching.{Cached, not_modified, full, etag_of, write_cached}

-- The body that a client has after a reply, if it kept `old` from the one before.
pub body_after : Bytes → Cached → Bytes
body_after old (not_modified etag) = old
body_after old (full etag body) = body

pub is_unchanged : Cached → Bool
is_unchanged (not_modified etag) = true
is_unchanged (full etag body) = false

-- A client that kept a body with its tag and asks again has the present body afterwards, and gets it
-- sent exactly if it differs from the one kept; unless the tags of the two bodies collide.
pub write_cached-body_after :
    (sha256_hex : Bytes → Bytes) (old body : Bytes)
    → (etag_of sha256_hex old ≡ etag_of sha256_hex body → old ≡ body)
    → let reply = write_cached sha256_hex (etag_of sha256_hex old) body in
      (body_after old reply ≡ body) × ((is_unchanged reply ≡ true) ↔ (old ≡ body))
unfolding write_cached body_after is_unchanged
write_cached-body_after sha256_hex old body no_collision =
    let old_tag = etag_of sha256_hex old in
    let tag = etag_of sha256_hex body in
    elim (Bool-cases (bytes_eq old_tag tag)) [
      | inl e ↦
          (let same = no_collision (bytes_eq_sound old_tag tag e) in
            rw e (same, (λ h. same, λ h. refl)))
      | inr e ↦ rw e (
        refl,
        (
          λ h. cc,
          λ h. cc (e, ap (λ b. bytes_eq old_tag (etag_of sha256_hex b)) h, bytes_eq_refl old_tag),
        ),
      )
    ]
