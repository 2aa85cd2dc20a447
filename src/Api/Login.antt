-- ===== src/Api/Login.antt =====
-- backend/internal/httpapi/admin.go: handleAdminLogin, with AdminByUsername and TouchAdminLogin of
-- store/admin.go. bcrypt and the address of the client are parameters; writes to the audit log succeed.
use Prim.Native.String.{◌++◌ as ◌+++◌}
use afghanistan_news.Base.{
  ℕ, ◌+◌, String, Bool, not, Option, none, some, List, ◌∷◌, str_eq, find, update_where,
  if◌then◌else◌,
}
use afghanistan_news.Query.Cursor.{Bytes}
use afghanistan_news.Api.RateLimit.{RateLimiter, allow_request}
use afghanistan_news.Api.Session.{Crypto, SessionManager, issue}
use afghanistan_news.Api.Console.{AuditEntry}

pub record AdminUser : Type 0 where
  pub id : String
  pub username : String
  pub password_hash : String
  pub role : String
  pub active : Bool
  pub last_login_at : Option ℕ

pub record LoginState : Type 0 where
  pub limiter : RateLimiter
  pub users : List AdminUser
  pub audits : List AuditEntry

pub record LoginCall : Type 0 where
  pub username : String
  pub password : String
  pub client_ip : String

-- strings.TrimSpace, and bcrypt.CompareHashAndPassword.
pub record LoginLib : Type 0 where
  pub trim : String → String
  pub matches : String → String → Bool

pub data LoginAnswer : Type 0 where
  too_many_attempts invalid_credentials : LoginAnswer
  logged_in : Bytes → ℕ → LoginAnswer

unfoldable pub admin_by_username : String → List AdminUser → Option AdminUser
admin_by_username name users = find (λ (u : AdminUser). str_eq u.username name) users

unfoldable pub touch_admin_login : String → ℕ → List AdminUser → List AdminUser
touch_admin_login name now users =
    update_where (λ (u : AdminUser). str_eq u.username name)
      (λ u. record u { last_login_at = some now }) users

unfoldable pub login_audit : String → String → String → AuditEntry
login_audit actor action id = record {
  actor = actor;
  action = action;
  entity = "admin_user";
  entity_id = id;
  after = "";
}

-- After the limiter has let the request through.
unfoldable pub check_password :
    Crypto
    → SessionManager
    → LoginLib
    → ℕ
    → LoginCall
    → LoginState
    → AdminUser
    → LoginState × LoginAnswer
unfolding login_audit touch_admin_login
check_password c m l now call st user =
    if l.matches user.password_hash call.password
    then (
      record st {
        users = touch_admin_login user.username now st.users;
        audits = login_audit user.username "LOGIN" user.id ∷ st.audits;
      },
      logged_in (issue c m user.username user.role now) (now + m.ttl),
    )
    else (
      record st { audits = login_audit call.username "LOGIN_FAILED" user.id ∷ st.audits },
      invalid_credentials,
    )

unfoldable pub handle_login :
    Crypto → SessionManager → LoginLib → ℕ → LoginCall → LoginState → LoginState × LoginAnswer
unfolding check_password admin_by_username
handle_login c m l now call st =
    let taken = allow_request st.limiter now ("login:" +++ call.client_ip) in
    let st' = record st { limiter = taken.0 } in
    if not taken.1
    then (st', too_many_attempts)
    else elim (admin_by_username (l.trim call.username) st.users) [
      | none ↦ (st', invalid_credentials)
      | some user ↦
          if not user.active
          then (st', invalid_credentials)
          else check_password c m l now call st' user
    ]
