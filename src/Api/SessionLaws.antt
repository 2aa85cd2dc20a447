-- ===== src/Api/SessionLaws.antt =====
-- backend/internal/httpapi/admin.go: which tokens open a session.
use afghanistan_news.Base.{
  ℕ, ◌+◌, ◌/◌, ◌≤◌, String, true, false, Option, none, some, [], ◌∷◌, ◌++◌, ◌≡◌, refl, ap, ◌↔◌, inl,
  inr, ltb, ◌==◌, All, Bool-cases, Option-cases, arith, if◌then◌else◌,
}
use afghanistan_news.Model.{second}
use afghanistan_news.Query.Cursor.{Bytes}
use afghanistan_news.Api.Session.{
  SessionClaims, Crypto, SessionManager, dot, sign, claims_at, issue, Verified, expired, accepted,
  split_dot, bytes_eq, verify_claims, verify, Credentials, token_of, claims_of, require_auth,
}

-- What is documented of the packages: base64 is undone by its decoder, and writes no dot.
pub record IsCrypto (c : Crypto) : Type 0 where
  pub undone : (bs : Bytes) → c.decode64 (c.encode64 bs) ≡ some bs
  pub no_dot : (bs : Bytes) → All (λ x. (x == dot) ≡ false) (c.encode64 bs)

pub bytes_eq_refl : (b : Bytes) → bytes_eq b b ≡ true
bytes_eq_refl [] = refl
bytes_eq_refl (x ∷ b) = ground (arith, bytes_eq_refl b)

pub bytes_eq_sound : (a b : Bytes) → bytes_eq a b ≡ true → a ≡ b
bytes_eq_sound [] [] h = refl
bytes_eq_sound [] (y ∷ b) h = cc
bytes_eq_sound (x ∷ a) [] h = cc
bytes_eq_sound (x ∷ a) (y ∷ b) h = ground (arith, bytes_eq_sound a b)

split_dot-append :
    (payload signature : Bytes)
    → All (λ x. (x == dot) ≡ false) payload
    → split_dot (payload ++ (dot ∷ signature)) ≡ some (payload, signature)
unfolding split_dot
split_dot-append [] signature h = refl
split_dot-append (c ∷ payload) signature h = rw (h.0, split_dot-append payload signature h.1) refl

split_dot_parts :
    (token payload signature : Bytes)
    → split_dot token ≡ some (payload, signature)
    → (token ≡ payload ++ (dot ∷ signature)) × All (λ x. (x == dot) ≡ false) payload
unfolding split_dot
split_dot_parts [] payload signature h = cc
split_dot_parts (c ∷ s) payload signature h = elim (Bool-cases (c == dot)) [
  | inl e ↦
      let front : [] ≡ payload = ground arith in
      let back : s ≡ signature = ground arith in rw (← front, ← back) (ground arith, tt)
  | inr e ↦ elim (Option-cases (split_dot s)) [
    | inl n ↦ ground arith
    | inr (r, q) ↦
        let front : c ∷ r.0 ≡ payload = ground arith in
        let back : r.1 ≡ signature = ground arith in
        let ih = split_dot_parts s r.0 r.1 q in
        rw (← front, ← back) (ap (λ (t : Bytes). c ∷ t) ih.0, (e, ih.1))
  ]
]

-- Where base64 is undone by its decoder and writes no dot, and JSON gives the claims back, a
-- token that was issued yields the name and the role until the second of its expiry has passed,
-- and is refused as expired from then on.
pub verify-issue :
    (c : Crypto) (m : SessionManager) (username role : String) (issued now : ℕ)
    → IsCrypto c
    → c.unmarshal (c.marshal (claims_at m username role issued))
      ≡ some (claims_at m username role issued)
    → verify c m now (issue c m username role issued) ≡ (
        if ltb ((issued + m.ttl) / second) (now / second)
        then expired
        else accepted (claims_at m username role issued))
unfolding verify issue verify_claims claims_at
verify-issue c m username role issued now h read_back =
    let claims = claims_at m username role issued in
    let enc = c.encode64 (c.marshal claims) in
    ground (
      arith,
      split_dot-append enc (sign c m enc) (h.no_dot (c.marshal claims)),
      bytes_eq_refl (sign c m enc),
      h.undone (c.marshal claims),
      read_back,
    )

-- What a token must be to open a session with these claims: a payload with no dot in it and its code
-- under the key of the server, with claims that have not expired.
pub record Opens (c : Crypto) (m : SessionManager) (now : ℕ) (token : Bytes)
    (claims : SessionClaims) : Type 0 where
  pub payload : Bytes
  pub raw : Bytes
  pub signed : token ≡ payload ++ (dot ∷ c.mac64 m.key payload)
  pub no_dot : All (λ x. (x == dot) ≡ false) payload
  pub decoded : c.decode64 payload ≡ some raw
  pub read : c.unmarshal raw ≡ some claims
  pub in_time : now / second ≤ claims.expires

verify_opened :
    (c : Crypto) (m : SessionManager) (now : ℕ) (token : Bytes) (claims : SessionClaims)
    → verify c m now token ≡ accepted claims
    → Opens c m now token claims
unfolding verify verify_claims sign
verify_opened c m now token claims h = elim (Option-cases (split_dot token)) [
  | inl n ↦ ground arith
  | inr ((payload, signature), q) ↦ elim (Bool-cases (bytes_eq (c.mac64 m.key payload) signature)) [
    | inl e ↦ elim (Option-cases (c.decode64 payload)) [
      | inl n ↦ ground arith
      | inr (raw, d) ↦ elim (Option-cases (c.unmarshal raw)) [
        | inl n ↦ ground arith
        | inr (found, u) ↦
            let same : found ≡ claims = ground arith in
            let parts = split_dot_parts token payload signature q in
            let mac = bytes_eq_sound (c.mac64 m.key payload) signature e in
            record {
              payload = payload;
              raw = raw;
              signed = rw mac parts.0;
              no_dot = parts.1;
              decoded = d;
              read = rw⁻¹ same u;
              in_time = ground arith;
            }
      ]
    ]
    | inr e ↦ ground arith
  ]
]

-- Exactly the tokens that carry a payload and the server's code of it are accepted, and with the
-- claims of the payload, up to the second in which they expire.
pub verify_exact :
    (c : Crypto) (m : SessionManager) (now : ℕ) (token : Bytes) (claims : SessionClaims)
    → (verify c m now token ≡ accepted claims) ↔ Opens c m now token claims
unfolding verify verify_claims sign
verify_exact c m now token claims = (
  verify_opened c m now token claims,
  λ o. rw o.signed (
      ground (
        arith,
        split_dot-append o.payload (c.mac64 m.key o.payload) o.no_dot,
        bytes_eq_refl (c.mac64 m.key o.payload),
        o.decoded,
        o.read,
        o.in_time,
      )),
)

claims_of-some :
    (v : Verified) (claims : SessionClaims) → claims_of v ≡ some claims → v ≡ accepted claims
claims_of-some (accepted found) claims h = cc
claims_of-some v claims h = cc

session_opened :
    (c : Crypto) (m : SessionManager) (now : ℕ) (token : Bytes) (claims : SessionClaims)
    → elim token as (λ _. Option SessionClaims) [
      | [] ↦ none
      | x ∷ xs ↦ claims_of (verify c m now (x ∷ xs))
    ]
      ≡ some claims
    → Opens c m now token claims
session_opened c m now [] claims h = cc
session_opened c m now (x ∷ xs) claims h =
    verify_opened c m now (x ∷ xs) claims (claims_of-some (verify c m now (x ∷ xs)) claims h)

pub require_auth-Opens :
    (c : Crypto) (m : SessionManager) (now : ℕ) (r : Credentials) (claims : SessionClaims)
    → require_auth c m now r ≡ some claims
    → Opens c m now (token_of r) claims
unfolding require_auth
require_auth-Opens c m now r claims h = session_opened c m now (token_of r) claims h
