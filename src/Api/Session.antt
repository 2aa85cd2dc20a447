-- ===== src/Api/Session.antt =====
-- backend/internal/httpapi/admin.go: sessionManager, the claims of a session, the roles, and the check
-- of a token before a handler of the console. Tokens are lists of bytes, times nanoseconds.
use afghanistan_news.Base.{
  ℕ, ◌+◌, ◌*◌, ◌/◌, String, Bool, true, false, ◌&&◌, Option, none, some, List, [], ◌∷◌, ◌++◌,
  str_eq, ltb, ◌==◌, any, if◌then◌else◌,
}
use afghanistan_news.Model.{hour, second}
use afghanistan_news.Query.Cursor.{Bytes}

pub record SessionClaims : Type 0 where
  pub username : String
  pub role : String
  pub expires : ℕ

-- encoding/base64, encoding/json on the claims, and HMAC-SHA256 in base64 under a key.
pub record Crypto : Type 0 where
  pub encode64 : Bytes → Bytes
  pub decode64 : Bytes → Option Bytes
  pub marshal : SessionClaims → Bytes
  pub unmarshal : Bytes → Option SessionClaims
  pub mac64 : Bytes → Bytes → Bytes

pub record SessionManager : Type 0 where
  pub key : Bytes
  pub ttl : ℕ

-- `default_key` is the text of the source for a missing key.
unfoldable pub new_session_manager : Bytes → Bytes → ℕ → SessionManager
new_session_manager default_key key ttl = record {
  key = elim key [ [] ↦ default_key | x ∷ xs ↦ x ∷ xs ];
  ttl = if ttl == 0 then 8 * hour else ttl;
}

abbrev pub dot : ℕ
dot = 46

unfoldable pub sign : Crypto → SessionManager → Bytes → Bytes
sign c m payload = c.mac64 m.key payload

-- The claims of a session that begins now.
unfoldable pub claims_at : SessionManager → String → String → ℕ → SessionClaims
claims_at m username role now = record {
  username = username;
  role = role;
  expires = (now + m.ttl) / second;
}

unfoldable pub issue : Crypto → SessionManager → String → String → ℕ → Bytes
unfolding sign
issue c m username role now =
    let enc = c.encode64 (c.marshal (claims_at m username role now)) in enc ++ (dot ∷ sign c m enc)

pub data Verified : Type 0 where
  malformed_token invalid_signature invalid_payload invalid_claims expired : Verified
  accepted : SessionClaims → Verified

-- strings.SplitN(token, ".", 2), where it has two parts.
unfoldable pub split_dot : Bytes → Option (Bytes × Bytes)
split_dot [] = none
split_dot (c ∷ s) =
    let rest = split_dot s in
    if c == dot
    then some ([], s)
    else elim rest [ none ↦ none | some (before, after) ↦ some (c ∷ before, after) ]

-- hmac.Equal
abbrev pub bytes_eq : Bytes → Bytes → Bool
bytes_eq [] [] = true
bytes_eq [] (y ∷ ys) = false
bytes_eq (x ∷ xs) [] = false
bytes_eq (x ∷ xs) (y ∷ ys) = x == y && bytes_eq xs ys

unfoldable pub verify_claims : Crypto → ℕ → Bytes → Verified
verify_claims c now payload = elim (c.decode64 payload) [
  | none ↦ invalid_payload
  | some raw ↦ elim (c.unmarshal raw) [
    | none ↦ invalid_claims
    | some claims ↦ if ltb claims.expires (now / second) then expired else accepted claims
  ]
]

unfoldable pub verify : Crypto → SessionManager → ℕ → Bytes → Verified
unfolding sign
verify c m now token = elim (split_dot token) [
  | none ↦ malformed_token
  | some (payload, signature) ↦
      if bytes_eq (sign c m payload) signature
      then verify_claims c now payload
      else invalid_signature
]

-- The token of a request: the cookie's, or else that of the header.
pub record Credentials : Type 0 where
  pub cookie : Bytes
  pub bearer : Bytes

unfoldable pub token_of : Credentials → Bytes
token_of r = elim (r.cookie) [ [] ↦ r.bearer | x ∷ xs ↦ x ∷ xs ]

abbrev pub claims_of : Verified → Option SessionClaims
claims_of (accepted claims) = some claims
claims_of _ = none

-- requireAuth: the claims with which the handler runs, or none and the answer 401.
unfoldable pub require_auth : Crypto → SessionManager → ℕ → Credentials → Option SessionClaims
unfolding token_of
require_auth c m now r = elim (token_of r) [
  | [] ↦ none
  | x ∷ xs ↦ claims_of (verify c m now (x ∷ xs))
]

unfoldable pub role_actions : String → List String
role_actions role =
    if str_eq role "SUPER_ADMIN"
    then ("view" ∷ "feed_edit" ∷ "feed_disable" ∷ "feed_test" ∷ "import_dryrun" ∷ "import_commit"
        ∷ "breaking" ∷ "push_send" ∷ "users" ∷ "audit" ∷ [])
    else if str_eq role "EDITOR"
    then ("view" ∷ "feed_test" ∷ "breaking" ∷ "push_send" ∷ "audit" ∷ [])
    else if str_eq role "SOURCE_MANAGER"
    then ("view" ∷ "feed_edit" ∷ "feed_disable" ∷ "feed_test" ∷ "import_dryrun" ∷ "audit" ∷ [])
    else if str_eq role "VIEWER"
    then ("view" ∷ "audit" ∷ [])
    else []

unfoldable pub can : String → String → Bool
unfolding role_actions
can role action = any (λ a. str_eq a action) (role_actions role)
