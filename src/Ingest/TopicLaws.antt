-- ===== src/Ingest/TopicLaws.antt =====
-- Near-duplicate titles (backend/internal/feed/normalize/topicmatch.go).
use afghanistan_news.Base.{
  suc, ◌≡◌, refl, sym, ap, ◌∙◌, inl, inr, Bool-cases, String, false, List, [], ◌∷◌, arith, str_eq,
  eq_iff, if◌then◌else◌,
}
use afghanistan_news.Ingest.Topic.{
  is_token, topic_tokens, shared, near_duplicate_tokens, near_duplicate_title,
}

-- No token stands twice.
abbrev Nodup : List String → Type 0
Nodup [] = Unit
Nodup (t ∷ ts) = (is_token ts t ≡ false) × Nodup ts

topic_tokens-Nodup : (fs : List String) → Nodup (topic_tokens fs)
unfolding topic_tokens
topic_tokens-Nodup [] = tt
topic_tokens-Nodup (f ∷ fs) = ground (arith, topic_tokens-Nodup fs)

shared_nil : (ts : List String) → shared ts [] ≡ 0
shared_nil [] = refl
shared_nil (t ∷ ts) = shared_nil ts

eq_flip : (s t : String) → str_eq s t ≡ str_eq t s
eq_flip s t = ground (arith, eq_iff s t, eq_iff t s)

absent_shared :
    (a : String) (as' bs : List String)
    → is_token bs a ≡ false
    → shared bs (a ∷ as') ≡ shared bs as'
absent_shared a as' [] h = refl
absent_shared a as' (b ∷ bs) h = ground (arith, eq_flip a b, absent_shared a as' bs)

shared-cons :
    (a : String) (as' bs : List String)
    → is_token as' a ≡ false
    → Nodup bs
    → shared bs (a ∷ as') ≡ (if is_token bs a then suc (shared bs as') else shared bs as')
shared-cons a as' [] h u = refl
shared-cons a as' (b ∷ bs) h u = elim (Bool-cases (str_eq b a)) [
  | inl e ↦
      let p : b ≡ a = (eq_iff b a).0 e in
      let out : is_token bs a ≡ false = ap (is_token bs) (sym p) ∙ u.0 in
      let out' : is_token as' b ≡ false = ap (is_token as') p ∙ h in
      ground (arith, e, eq_flip a b, out, out', absent_shared a as' bs out)
  | inr e ↦ ground (arith, e, eq_flip a b, shared-cons a as' bs h u.1)
]

shared_sym : (as' bs : List String) → Nodup as' → Nodup bs → shared as' bs ≡ shared bs as'
shared_sym [] bs u v = sym (shared_nil bs)
shared_sym (a ∷ as') bs u v = ground (arith, shared_sym as' bs u.1 v, shared-cons a as' bs u.0 v)

-- Whether two titles tell the same story does not depend on the order of the two.
pub near_duplicate_sym :
    (fields : String → List String) (a b : String)
    → near_duplicate_title fields a b ≡ near_duplicate_title fields b a
unfolding near_duplicate_title near_duplicate_tokens
near_duplicate_sym fields a b =
    let s = topic_tokens (fields a) in
    let t = topic_tokens (fields b) in
    ground (arith, shared_sym s t (topic_tokens-Nodup (fields a)) (topic_tokens-Nodup (fields b)))
