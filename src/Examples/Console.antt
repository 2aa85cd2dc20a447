-- ===== src/Examples/Console.antt =====
-- Sessions, the handlers of the console and the limiter of requests at concrete inputs.
use afghanistan_news.Base.{
  none, ℕ, ◌+◌, ◌-◌, ◌*◌, ◌/◌, ◌≤◌, String, true, false, some, List, [], ◌∷◌, ◌++◌, ◌≡◌, ◌≢◌, ◌↔◌,
  str_eq, refl, ap, ltb, All, arith, ◌==◌, if◌then◌else◌,
}
use afghanistan_news.Model.{minute, second}
use afghanistan_news.Push.Store.{push_event_exists, record_push_event}
use afghanistan_news.Push.Notify.{delivered}
use afghanistan_news.Query.Cursor.{Bytes}
use afghanistan_news.Api.RateLimit.{
  allow_request, take_token, refilled, swept, RateLimiter, new_rate_limiter, allow_all, burst,
}
use afghanistan_news.Api.RateLimitLaws.{rate_limited, passed, NotAhead}
use afghanistan_news.Api.Session.{
  SessionClaims, Crypto, SessionManager, Credentials, accepted, expired, claims_at, issue, verify,
  can, require_auth, token_of, verify_claims, split_dot,
}
use afghanistan_news.Api.SessionLaws.{IsCrypto, Opens, verify_exact}
use afghanistan_news.Api.Console.{
  Answer, Tables, Failing, ArticleUpdate, handle_article_update, breaking_stage, status_stage,
  classify_stage, patch_article, unauthorized_401, ok_200,
}
use afghanistan_news.Api.ConsoleLaws.{flags, handle_article_update-flags, patch_article-Opens}
use afghanistan_news.Api.PushSend.{PushRequest, PushCalls, PushTables, handle_push_send}
use afghanistan_news.Api.PushSendLaws.{no_second_send}
use afghanistan_news.Api.Login.{
  AdminUser, LoginState, LoginCall, LoginLib, logged_in, admin_by_username, handle_login,
}
use afghanistan_news.Api.LoginLaws.{Deserved, login_opens}
use afghanistan_news.Examples.Fixtures.{two_articles, no_push, texts, no_articles}

-- Requests of two clients: the sixth of the first one, in the same second, does not pass.
abbrev sixteen : RateLimiter
sixteen = new_rate_limiter 16 1000

abbrev requests : List (ℕ × String)
requests = (1000, "a") ∷ (1000, "b") ∷ (1001, "a") ∷ (1002, "a") ∷ (1003, "a") ∷ (1004, "a") ∷ []

no_bucket : NotAhead 1000 (sixteen.buckets "a")
unfolding new_rate_limiter
no_bucket = tt

rate_limited_example :
    minute * passed "a" requests (allow_all sixteen requests).1
    ≤ burst sixteen.per_minute + (1004 - 1000) * sixteen.per_minute
rate_limited_example =
    rate_limited "a" sixteen 1000 requests no_bucket
      (omega arith, (omega arith, (omega arith, (omega arith, (omega arith, (omega arith, tt))))))

-- JSON of one operator's claims; the code of a payload is the payload behind the key.
abbrev manager : SessionManager
manager = record { key = 7 ∷ 8 ∷ []; ttl = 8 * (60 * minute) }

abbrev editor : SessionClaims
editor = record { username = "ann"; role = "EDITOR"; expires = 28_801 }

abbrev viewer : SessionClaims
viewer = record { username = "bob"; role = "VIEWER"; expires = 28_801 }

abbrev digits : Bytes → Bytes
digits [] = []
digits (b ∷ bs) = (b + 1000) ∷ digits bs

abbrev undigits : Bytes → Bytes
undigits [] = []
undigits (b ∷ bs) = (b - 1000) ∷ undigits bs

abbrev crypto : Crypto
crypto = record {
  encode64 = digits;
  decode64 = λ b. some (undigits b);
  marshal = λ s. s.expires ∷ [];
  unmarshal = λ b. some editor;
  mac64 = λ key payload. key ++ payload;
}

undone : (bs : Bytes) → undigits (digits bs) ≡ bs
undone [] = refl
undone (b ∷ bs) = rw (undone bs) (ap (λ (x : ℕ). x ∷ bs) (omega arith))

no_dot : (bs : Bytes) → All (λ x. (x == 46) ≡ false) (digits bs)
no_dot [] = tt
no_dot (b ∷ bs) = (ground arith, no_dot bs)

crypto-IsCrypto : IsCrypto crypto
crypto-IsCrypto = record { undone = λ bs. ap some (undone bs); no_dot = no_dot }

read_editor :
    crypto.unmarshal (crypto.marshal (claims_at manager "ann" "EDITOR" second))
    ≡ some (claims_at manager "ann" "EDITOR" second)
unfolding claims_at
read_editor = refl

abbrev token : Bytes
token = 29_801 ∷ 46 ∷ 7 ∷ 8 ∷ 29_801 ∷ []

verify_exact_example :
    (verify crypto manager second token ≡ accepted editor)
    ↔ Opens crypto manager second token editor
verify_exact_example = verify_exact crypto manager second token editor

abbrev works : Failing
works = record {
  breaking_fails = false;
  status_fails = false;
  reclassify_fails = false;
  audit_fails = false;
  card_fails = false;
}

abbrev tables : Tables
tables = record { articles = two_articles; audits = [] }

abbrev hide : ArticleUpdate
hide = record { breaking = some true; status = "HIDDEN"; category_id = "news"; province_id = "" }

not_granted : can viewer.role "breaking" ≡ false
unfolding can
not_granted = refl

handle_article_update-flags_example :
    flags (handle_article_update (λ p. true) (λ c p. c) works viewer "a1" hide tables).0
    ≡ flags tables
handle_article_update-flags_example =
    handle_article_update-flags (λ p. true) (λ c p. c) works viewer "a1" hide tables not_granted

abbrev credentials : Credentials
credentials = record { cookie = token; bearer = [] }

answered_ok :
    (patch_article
      (λ p. true)
      (λ c p. c)
      crypto
      manager
      second
      credentials
      works
      "a1"
      hide
      tables).1
    ≡ ok_200
unfolding patch_article require_auth verify handle_article_update verify_claims split_dot can
    breaking_stage status_stage classify_stage
answered_ok = refl

changes :
    patch_article (λ p. true) (λ c p. c) crypto manager second credentials works "a1" hide tables
    ≢ (tables, unauthorized_401)
changes e = cc (ap (λ (x : Tables × Answer). x.1) e, answered_ok)

patch_article-Opens_example :
    (claims : SessionClaims) × Opens crypto manager second (token_of credentials) claims
    × (patch_article (λ p. true) (λ c p. c) crypto manager second credentials works "a1" hide tables
        ≡ handle_article_update (λ p. true) (λ c p. c) works claims "a1" hide tables)
patch_article-Opens_example =
    patch_article-Opens (λ p. true) (λ c p. c) crypto manager second credentials works "a1" hide
      tables changes

abbrev calls : PushCalls
calls = record {
  texts = texts;
  truncate = λ s. s;
  pusher = some (λ m. delivered false);
  now = 1000;
  exists_fails = false;
  audience_fails = false;
  record_fails = false;
  breaking_fails = false;
}

abbrev flood : PushRequest
flood = record { article_id = ""; topic = "all"; title = "Flood"; body = "Rain"; confirm = true }

abbrev before_push : PushTables
before_push = record { push = no_push; articles = no_articles }

sent_ok : (handle_push_send calls editor flood before_push).answer ≡ ok_200
unfolding handle_push_send can push_event_exists record_push_event
sent_ok = refl

no_second_send_example :
    (handle_push_send calls editor flood
      (handle_push_send calls editor flood before_push).tables).messages
    ≡ []
no_second_send_example = no_second_send calls calls editor editor flood before_push refl sent_ok

abbrev ann : AdminUser
ann = record {
  id = "u1";
  username = "ann";
  password_hash = "secret";
  role = "EDITOR";
  active = true;
  last_login_at = none;
}

abbrev desk : LoginState
desk = record { limiter = sixteen; users = ann ∷ []; audits = [] }

abbrev sign_in : LoginCall
sign_in = record { username = "ann"; password = "secret"; client_ip = "10.0.0.7" }

abbrev login_lib : LoginLib
login_lib = record { trim = λ s. s; matches = λ hash password. str_eq hash password }

read_found :
    (user : AdminUser)
    → admin_by_username "ann" (ann ∷ []) ≡ some user
    → crypto.unmarshal (crypto.marshal (claims_at manager user.username user.role second))
      ≡ some (claims_at manager user.username user.role second)
unfolding admin_by_username
read_found user e = let same : ann ≡ user = cc in rw⁻¹ same read_editor

logs_in :
    (handle_login crypto manager login_lib second sign_in desk).1
    ≡ logged_in (issue crypto manager "ann" "EDITOR" second) (second + manager.ttl)
unfolding handle_login allow_request take_token refilled swept new_rate_limiter
logs_in = refl

login_opens_example :
    (user : AdminUser) × Deserved login_lib second sign_in desk user
    × (verify crypto manager 5_000_000_000 (issue crypto manager "ann" "EDITOR" second) ≡ (
        if ltb ((second + manager.ttl) / second) (5_000_000_000 / second)
        then expired
        else accepted (claims_at manager user.username user.role second)))
login_opens_example =
    login_opens crypto manager login_lib second 5_000_000_000 sign_in desk
      (issue crypto manager "ann" "EDITOR" second) (second + manager.ttl) crypto-IsCrypto read_found
      logs_in
