-- ===== src/Api/LoginLaws.antt =====
-- backend/internal/httpapi/admin.go: who gets a session by handleAdminLogin, and what it is worth.
use Prim.Native.String.{◌++◌ as ◌+++◌}
use afghanistan_news.Base.{
  ℕ, ◌+◌, ◌/◌, true, some, ◌≡◌, ap, sym, ◌∙◌, inl, inr, ltb, Bool-cases, Option-cases, arith,
  if◌then◌else◌,
}
use afghanistan_news.Model.{second}
use afghanistan_news.Query.Cursor.{Bytes}
use afghanistan_news.Api.RateLimit.{allow_request}
use afghanistan_news.Api.Session.{
  Crypto, SessionManager, claims_at, issue, verify, accepted, expired,
}
use afghanistan_news.Api.SessionLaws.{IsCrypto, verify-issue}
use afghanistan_news.Api.Login.{
  AdminUser, LoginState, LoginCall, LoginLib, logged_in, admin_by_username, check_password,
  handle_login,
}

-- What a login that succeeds shows: the limiter let it through, the name is that of an active
-- operator, and the password is theirs.
pub record Deserved (l : LoginLib) (now : ℕ) (call : LoginCall) (st : LoginState) (user : AdminUser)
    : Type 0 where
  pub let_through : (allow_request st.limiter now ("login:" +++ call.client_ip)).1 ≡ true
  pub known : admin_by_username (l.trim call.username) st.users ≡ some user
  pub active : user.active ≡ true
  pub right_password : l.matches user.password_hash call.password ≡ true

login_inverted :
    (c : Crypto) (m : SessionManager) (l : LoginLib) (now : ℕ) (call : LoginCall) (st : LoginState)
    (token : Bytes) (until : ℕ)
    → (handle_login c m l now call st).1 ≡ logged_in token until
    → (user : AdminUser) × Deserved l now call st user
      × (issue c m user.username user.role now ≡ token)
      × (now + m.ttl ≡ until)
unfolding handle_login check_password
login_inverted c m l now call st token until h =
    elim (Bool-cases (allow_request st.limiter now ("login:" +++ call.client_ip)).1) [
      | inr e ↦ ground arith
      | inl e ↦ elim (Option-cases (admin_by_username (l.trim call.username) st.users)) [
        | inl n ↦ ground arith
        | inr (user, known) ↦ elim (Bool-cases user.active) [
          | inr a ↦ ground arith
          | inl a ↦ elim (Bool-cases (l.matches user.password_hash call.password)) [
            | inr p ↦ ground arith
            | inl p ↦ (
              user,
              record { let_through = e; known = known; active = a; right_password = p },
              ground arith,
              ground arith,
            )
          ]
        ]
      ]
    ]

-- A token that a login hands out was deserved: the limiter let the request through, the name is
-- that of an active operator and the password is theirs. Where base64 is undone by its decoder
-- and writes no dot, and JSON gives the operator's claims back, it then opens a session with the
-- operator's name and role until it expires, and is refused as expired afterwards.
pub login_opens :
    (c : Crypto) (m : SessionManager) (l : LoginLib) (now later : ℕ) (call : LoginCall)
    (st : LoginState) (token : Bytes) (until : ℕ)
    → IsCrypto c
    → ((user : AdminUser)
        → admin_by_username (l.trim call.username) st.users ≡ some user
        → c.unmarshal (c.marshal (claims_at m user.username user.role now))
          ≡ some (claims_at m user.username user.role now))
    → (handle_login c m l now call st).1 ≡ logged_in token until
    → (user : AdminUser) × Deserved l now call st user
      × (verify c m later token ≡ (
          if ltb (until / second) (later / second)
          then expired
          else accepted (claims_at m user.username user.role now)))
login_opens c m l now later call st token until lawful json h =
    let r = login_inverted c m l now call st token until h in
    (
      r.0,
      r.1,
      ap (verify c m later) (sym r.2)
          ∙ verify-issue c m r.0.username r.0.role now later lawful (json r.0 r.1.known)
          ∙ ap
              (λ (t : ℕ).
                (if ltb (t / second) (later / second)
                  then expired
                  else accepted (claims_at m r.0.username r.0.role now)))
              r.3,
    )
